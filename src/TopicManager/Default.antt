-- ===== src/TopicManager/Default.antt =====
-- src/DefaultTopicManager.hpp and .cpp. What a vector reserves does not show in its content and is left
-- out; sizes in memory are added without wrapping. The data store is the argument `store`.
pub mod Log
pub mod Receive
pub mod Feed
pub mod AsDefault
pub mod InMemory
pub mod Creation
pub mod FailedBatch
pub mod Failure
pub mod Stored
pub mod Manager
pub mod Tests
use mofka.Prelude.{
  Outcome, ◌>>=◌, length, get_or, take, drop, replicate, resize, sum, ltb, ◌==◌, if◌then◌else◌,
  Bytes, sub64, word, encode_words, decode_words, returns, throws, ℕ, ◌+◌, ◌-◌, ◌*◌, ◌%◌, ◌^◌, min,
  String, Bool, true, false, Option, none, some, List, [], ◌∷◌, ◌++◌,
}
use mofka.Descriptor.{DataDescriptor, save}
use mofka.DataStore.{Warabi, Loaded, store, load}
use mofka.Rdma.{Rdma, BulkRef}
use mofka.TopicManager.{Fed, Cursors, offsets_from, cursor_of, set_cursor, desc_end}

pub record DefaultTopic : Type 0 where
  pub events_metadata : Bytes
  pub events_metadata_offsets : List ℕ
  pub events_metadata_sizes : List ℕ
  pub events_data_desc : Bytes
  pub events_data_desc_offsets : List ℕ
  pub events_data_desc_sizes : List ℕ
  pub consumer_cursor : Cursors

unfoldable pub initial : DefaultTopic
initial = record {
  events_metadata = [];
  events_metadata_offsets = [];
  events_metadata_sizes = [];
  events_data_desc = [];
  events_data_desc_offsets = [];
  events_data_desc_sizes = [];
  consumer_cursor = [];
}

-- The vectors of the metadata, resized for `num` more events with `size` bytes.
pub resize_metadata : (num size : ℕ) → DefaultTopic → DefaultTopic
resize_metadata num size t = record t {
  events_metadata_sizes = t.events_metadata_sizes ++ replicate num 0;
  events_metadata_offsets = t.events_metadata_offsets ++ replicate num 0;
  events_metadata = t.events_metadata ++ replicate size 0;
}

-- The same with what the transfer wrote over the new sizes and bytes, and the loop for the offsets.
pub add_metadata : (num : ℕ) → Bytes → DefaultTopic → DefaultTopic
add_metadata num bytes t =
    let sizes = decode_words num bytes in
    record t {
      events_metadata_sizes = t.events_metadata_sizes ++ sizes;
      events_metadata_offsets =
          t.events_metadata_offsets ++ offsets_from (length t.events_metadata) sizes;
      events_metadata = t.events_metadata ++ drop (num * word) bytes;
    }

-- The loop over the descriptors of the data store.
pub add_descriptors : List DataDescriptor → ℕ → DefaultTopic → DefaultTopic
add_descriptors [] data_desc_offset t = t
add_descriptors (d ∷ ds) data_desc_offset t =
    let data_desc = save t.events_data_desc d in
    let data_descriptor_size = length data_desc - length t.events_data_desc in
    add_descriptors ds (data_desc_offset + data_descriptor_size) (record t {
      events_data_desc = data_desc;
      events_data_desc_sizes = t.events_data_desc_sizes ++ (data_descriptor_size ∷ []);
      events_data_desc_offsets = t.events_data_desc_offsets ++ (data_desc_offset ∷ []);
    })

-- The list of the descriptors is brought up to date, for events from `first_id` on.
pub describe : (first_id : ℕ) → List DataDescriptor → DefaultTopic → DefaultTopic
describe first_id descriptors t =
    add_descriptors descriptors (desc_end t.events_data_desc_offsets t.events_data_desc_sizes)
      (record t {
        events_data_desc_sizes = resize first_id 0 t.events_data_desc_sizes;
        events_data_desc_offsets = resize first_id 0 t.events_data_desc_offsets;
      })

-- What `m_data_store->store` came to: an exception, an error, or descriptors of which the code reads the
-- first `num_events`, so that `none` is fewer than that.
pub take_stored :
    (num_events first_id : ℕ)
    → Outcome (Outcome (List DataDescriptor))
    → DefaultTopic
    → Option (Outcome (Outcome ℕ) × DefaultTopic)
take_stored num_events first_id (throws what) t = some (throws what, t)
take_stored num_events first_id (returns (throws error)) t = some (returns (throws error), t)
take_stored num_events first_id (returns (returns descriptors)) t =
    if ltb (length descriptors) num_events
    then none
    else some (returns (returns first_id), describe first_id (take num_events descriptors) t)

module _ (R : Rdma) (store : ℕ → BulkRef R.Bulk → Outcome (Outcome (List DataDescriptor))) where
  -- DefaultTopicManager::receiveBatch: an exception, an error, or the first id, and the topic that it
  -- leaves. `none` is a bulk too small for the sizes, or a store with too few descriptors.
  pub receive_batch :
      (num_events : ℕ) (metadata_bulk data_bulk : BulkRef R.Bulk)
      → DefaultTopic
      → Option (Outcome (Outcome ℕ) × DefaultTopic)
  receive_batch num_events metadata_bulk data_bulk t =
      let first_id = length t.events_metadata_sizes in
      let metadata_size = metadata_bulk.size - num_events * word in
      if ltb metadata_bulk.size (num_events * word)
      then none
      else (elim (R.transfer metadata_bulk.handle metadata_bulk.offset metadata_bulk.size) [
        | throws what ↦ some (throws what, resize_metadata num_events metadata_size t)
        | returns metadata ↦
            take_stored num_events first_id (store num_events data_bulk)
              (add_metadata num_events metadata t)
      ])

module _ (R : Rdma) where
  -- The bulk references that feedConsumer makes for `num` events from `first_id` on.
  unfoldable pub feed_events : (num first_id : ℕ) (self_addr : String) → DefaultTopic → Fed R.Bulk
  feed_events num first_id self_addr t =
      let metadata_sizes = take num (drop first_id t.events_metadata_sizes) in
      let metadata_offset = get_or t.events_metadata_offsets first_id 0 in
      let metadata_size = sum metadata_sizes in
      let metadata = take metadata_size (drop metadata_offset t.events_metadata) in
      let metadata_bulk = R.expose (encode_words metadata_sizes ∷ metadata ∷ []) in
      let desc_sizes = take num (drop first_id t.events_data_desc_sizes) in
      let desc_offset = get_or t.events_data_desc_offsets first_id 0 in
      let desc_size = sum desc_sizes in
      let desc = take desc_size (drop desc_offset t.events_data_desc) in
      let desc_bulk = R.expose (encode_words desc_sizes ∷ desc ∷ []) in
      let sizes = num * word in
      record {
        count = num;
        first_id = first_id;
        metadata_sizes = record {
          handle = metadata_bulk;
          offset = 0;
          size = sizes;
          address = self_addr;
        };
        metadata = record {
          handle = metadata_bulk;
          offset = sizes;
          size = metadata_size;
          address = self_addr;
        };
        data_desc_sizes = record {
          handle = desc_bulk;
          offset = 0;
          size = sizes;
          address = self_addr;
        };
        data_desc = record {
          handle = desc_bulk;
          offset = sizes;
          size = desc_size;
          address = self_addr;
        };
      }

  -- One round of the inner loop of feedConsumer; `none` is a wait.
  unfoldable pub feed_once :
      (batch_size first_id : ℕ) (self_addr : String) → DefaultTopic → Option (Fed R.Bulk)
  unfolding feed_events
  feed_once batch_size first_id self_addr t =
      let max_available_events = sub64 (length t.events_metadata_sizes) first_id in
      let num_events_to_send = min batch_size max_available_events in
      if num_events_to_send == 0
      then none
      else some (feed_events num_events_to_send first_id self_addr t)

  -- The loops of feedConsumer, over what each round finds: whether the consumer should stop, and the
  -- topic at that time.
  pub feed_rounds :
      (batch_size first_id : ℕ) (self_addr : String)
      → List (Bool × DefaultTopic)
      → List (Fed R.Bulk)
  feed_rounds batch_size first_id self_addr [] = []
  feed_rounds batch_size first_id self_addr ((should_stop, t) ∷ rounds) = elim should_stop [
    | true ↦ []
    | false ↦ elim (feed_once batch_size first_id self_addr t) [
      | none ↦ feed_rounds batch_size first_id self_addr rounds
      | some fed ↦ fed ∷ feed_rounds batch_size ((first_id + fed.count) % 2 ^ 64) self_addr rounds
    ]
  ]

  -- DefaultTopicManager::feedConsumer; `cursors` is m_consumer_cursor when it starts.
  unfoldable pub feed_consumer :
      (name : String) (batch_size : ℕ) (self_addr : String) (cursors : Cursors)
      → List (Bool × DefaultTopic)
      → List (Fed R.Bulk)
  feed_consumer name batch_size self_addr cursors rounds =
      feed_rounds (if batch_size == 0 then 2 ^ 64 - 1 else batch_size) (cursor_of name cursors)
        self_addr rounds

-- DefaultTopicManager::acknowledge.
unfoldable pub acknowledge : String → ℕ → DefaultTopic → DefaultTopic
acknowledge name event_id t = record t {
  consumer_cursor = set_cursor name ((event_id + 1) % 2 ^ 64) t.consumer_cursor;
}

module _ (R : Rdma) (W : Warabi R) where
  -- `m_data_store->store` of a WarabiDataStore, whose result never is an error.
  pub data_store : W.Target → ℕ → BulkRef R.Bulk → Outcome (Outcome (List DataDescriptor))
  data_store target count remote_bulk =
      (store R W count remote_bulk target).0 >>= λ descriptors. returns (returns descriptors)

  -- DefaultTopicManager::getData.
  unfoldable pub get_data : W.Target → List DataDescriptor → BulkRef R.Bulk → Option (List Loaded)
  get_data target descriptors bulk = load R W target descriptors bulk

-- DefaultTopicManager::destroy: the answer.
unfoldable pub destroy : DefaultTopic → Bool
destroy t = true
