-- ===== src/TopicManager/Memory.antt =====
-- src/MemoryTopicManager.hpp and .cpp. What a vector reserves does not show in its content and is left
-- out; sizes in memory are added without wrapping.
pub mod Log
pub mod Transfer
pub mod Receive
pub mod Feed
pub mod Resume
pub mod Manager
pub mod Data
use mofka.Prelude.{
  Outcome, length, get_or, take, drop, replicate, resize, sum, ltb, ◌==◌, if◌then◌else◌, Bytes,
  sub64, word, encode_u64, decode_u64, encode_words, decode_words, returns, throws, ℕ, ◌+◌, ◌-◌,
  ◌*◌, ◌%◌, ◌^◌, min, String, Bool, true, false, ◌||◌, Option, none, some, List, [], ◌∷◌, ◌++◌,
}
use mofka.Descriptor.{DataDescriptor, save, from}
use mofka.Rdma.{Rdma, BulkRef}
use mofka.TopicManager.{Fed, offsets_from, Cursors, cursor_of, set_cursor, desc_end}

pub record MemoryTopic : Type 0 where
  pub events_metadata : Bytes
  pub events_metadata_offsets : List ℕ
  pub events_metadata_sizes : List ℕ
  pub events_data : Bytes
  pub events_data_offsets : List ℕ
  pub events_data_sizes : List ℕ
  pub events_data_desc : Bytes
  pub events_data_desc_offsets : List ℕ
  pub events_data_desc_sizes : List ℕ
  pub consumer_cursor : Cursors

unfoldable pub initial : MemoryTopic
initial = record {
  events_metadata = [];
  events_metadata_offsets = [];
  events_metadata_sizes = [];
  events_data = [];
  events_data_offsets = [];
  events_data_sizes = [];
  events_data_desc = [];
  events_data_desc_offsets = [];
  events_data_desc_sizes = [];
  consumer_cursor = [];
}

-- OffsetSize::toString and OffsetSize::fromDataDescriptor.
unfoldable pub offset_size_string : (offset size : ℕ) → Bytes
offset_size_string offset size = encode_u64 offset ++ encode_u64 size

unfoldable pub offset_of : DataDescriptor → ℕ
offset_of d = decode_u64 (take word d.location)

unfoldable pub size_of : DataDescriptor → ℕ
size_of d = decode_u64 (take word (drop word d.location))

-- The vectors of the metadata, resized for `num` more events with `size` bytes.
unfoldable pub resize_metadata : (num size : ℕ) → MemoryTopic → MemoryTopic
resize_metadata num size t = record t {
  events_metadata_sizes = t.events_metadata_sizes ++ replicate num 0;
  events_metadata_offsets = t.events_metadata_offsets ++ replicate num 0;
  events_metadata = t.events_metadata ++ replicate size 0;
}

-- The same with what the transfer wrote over the new sizes and bytes, and the loop for the offsets.
unfoldable pub add_metadata : (num : ℕ) → Bytes → MemoryTopic → MemoryTopic
add_metadata num bytes t =
    let sizes = decode_words num bytes in
    record t {
      events_metadata_sizes = t.events_metadata_sizes ++ sizes;
      events_metadata_offsets =
          t.events_metadata_offsets ++ offsets_from (length t.events_metadata) sizes;
      events_metadata = t.events_metadata ++ drop (num * word) bytes;
    }

-- The same for the data of events from `first_id` on. A transfer of metadata that threw leaves fewer
-- sizes and offsets of data than of metadata; resizing adds zeros for what is missing.
unfoldable pub resize_data : (first_id num size : ℕ) → MemoryTopic → MemoryTopic
resize_data first_id num size t = record t {
  events_data_sizes = resize (first_id + num) 0 t.events_data_sizes;
  events_data_offsets = resize (first_id + num) 0 t.events_data_offsets;
  events_data = t.events_data ++ replicate size 0;
}

unfoldable pub add_data : (first_id num : ℕ) → Bytes → MemoryTopic → MemoryTopic
add_data first_id num bytes t =
    let sizes = decode_words num bytes in
    record t {
      events_data_sizes = resize first_id 0 t.events_data_sizes ++ sizes;
      events_data_offsets =
          resize first_id 0 t.events_data_offsets ++ offsets_from (length t.events_data) sizes;
      events_data = t.events_data ++ drop (num * word) bytes;
    }

-- The loop for the descriptors, over the offsets and sizes of the data of the new events.
unfoldable pub add_descriptors : List ℕ → List ℕ → ℕ → MemoryTopic → MemoryTopic
add_descriptors (o ∷ os) (s ∷ ss) data_desc_offset t =
    let data_desc = save t.events_data_desc (from (offset_size_string o s) s) in
    let data_descriptor_size = length data_desc - length t.events_data_desc in
    add_descriptors os ss (data_desc_offset + data_descriptor_size) (record t {
      events_data_desc = data_desc;
      events_data_desc_sizes = t.events_data_desc_sizes ++ (data_descriptor_size ∷ []);
      events_data_desc_offsets = t.events_data_desc_offsets ++ (data_desc_offset ∷ []);
    })
add_descriptors _ _ data_desc_offset t = t

unfoldable pub describe : (first_id : ℕ) → MemoryTopic → MemoryTopic
describe first_id t =
    add_descriptors (drop first_id t.events_data_offsets) (drop first_id t.events_data_sizes)
      (desc_end t.events_data_desc_offsets t.events_data_desc_sizes)
      (record t {
        events_data_desc_sizes = resize first_id 0 t.events_data_desc_sizes;
        events_data_desc_offsets = resize first_id 0 t.events_data_desc_offsets;
      })

module _ (R : Rdma) where
  -- MemoryTopicManager::receiveBatch: the first id, or the exception of a transfer, and the topic that
  -- it leaves. `none` is a bulk that is too small for the sizes, of which the code subtracts more than
  -- there is.
  unfoldable pub receive_batch :
      (num_events : ℕ) (metadata_bulk data_bulk : BulkRef R.Bulk)
      → MemoryTopic
      → Option (Outcome ℕ × MemoryTopic)
  receive_batch num_events metadata_bulk data_bulk t =
      let first_id = length t.events_metadata_sizes in
      let metadata_size = metadata_bulk.size - num_events * word in
      let data_size = data_bulk.size - num_events * word in
      if ltb metadata_bulk.size (num_events * word) || ltb data_bulk.size (num_events * word)
      then none
      else some (elim (R.transfer metadata_bulk.handle metadata_bulk.offset metadata_bulk.size) [
        | throws what ↦ (throws what, resize_metadata num_events metadata_size t)
        | returns metadata ↦
            let t' = add_metadata num_events metadata t in
            elim (R.transfer data_bulk.handle data_bulk.offset data_bulk.size) [
              | throws what ↦ (throws what, resize_data first_id num_events data_size t')
              | returns content ↦
                  (returns first_id, describe first_id (add_data first_id num_events content t'))
            ]
      ])

  -- The bulk references that feedConsumer makes for `num` events from `first_id` on.
  feed_events : (num first_id : ℕ) (self_addr : String) → MemoryTopic → Fed R.Bulk
  feed_events num first_id self_addr t =
      let metadata_sizes = take num (drop first_id t.events_metadata_sizes) in
      let metadata_offset = get_or t.events_metadata_offsets first_id 0 in
      let metadata_size = sum metadata_sizes in
      let metadata = take metadata_size (drop metadata_offset t.events_metadata) in
      let metadata_bulk = R.expose (encode_words metadata_sizes ∷ metadata ∷ []) in
      let desc_sizes = take num (drop first_id t.events_data_desc_sizes) in
      let desc_offset = get_or t.events_data_desc_offsets first_id 0 in
      let desc_size = sum desc_sizes in
      let desc = take desc_size (drop desc_offset t.events_data_desc) in
      let desc_bulk = R.expose (encode_words desc_sizes ∷ desc ∷ []) in
      record {
        count = num;
        first_id = first_id;
        metadata_sizes = record {
          handle = metadata_bulk;
          offset = 0;
          size = num * word;
          address = self_addr;
        };
        metadata = record {
          handle = metadata_bulk;
          offset = num * word;
          size = metadata_size;
          address = self_addr;
        };
        data_desc_sizes = record {
          handle = desc_bulk;
          offset = 0;
          size = num * word;
          address = self_addr;
        };
        data_desc = record {
          handle = desc_bulk;
          offset = num * word;
          size = desc_size;
          address = self_addr;
        };
      }

  -- One round of the inner loop of feedConsumer; `none` is a wait.
  unfoldable pub feed_once :
      (batch_size first_id : ℕ) (self_addr : String) → MemoryTopic → Option (Fed R.Bulk)
  unfolding feed_events
  feed_once batch_size first_id self_addr t =
      let max_available_events = sub64 (length t.events_metadata_sizes) first_id in
      let num_events_to_send = min batch_size max_available_events in
      if num_events_to_send == 0
      then none
      else some (feed_events num_events_to_send first_id self_addr t)

  -- The loops of feedConsumer, over what each round finds: whether the consumer should stop, and the
  -- topic at that time.
  unfoldable pub feed_rounds :
      (batch_size first_id : ℕ) (self_addr : String) → List (Bool × MemoryTopic) → List (Fed R.Bulk)
  unfolding feed_once
  feed_rounds batch_size first_id self_addr [] = []
  feed_rounds batch_size first_id self_addr ((should_stop, t) ∷ rounds) = elim should_stop [
    | true ↦ []
    | false ↦ elim (feed_once batch_size first_id self_addr t) [
      | none ↦ feed_rounds batch_size first_id self_addr rounds
      | some fed ↦ fed ∷ feed_rounds batch_size ((first_id + fed.count) % 2 ^ 64) self_addr rounds
    ]
  ]

  -- MemoryTopicManager::feedConsumer; `cursors` is m_consumer_cursor when it starts.
  unfoldable pub feed_consumer :
      (name : String) (batch_size : ℕ) (self_addr : String) (cursors : Cursors)
      → List (Bool × MemoryTopic)
      → List (Fed R.Bulk)
  feed_consumer name batch_size self_addr cursors rounds =
      feed_rounds (if batch_size == 0 then 2 ^ 64 - 1 else batch_size) (cursor_of name cursors)
        self_addr rounds

-- MemoryTopicManager::acknowledge.
unfoldable pub acknowledge : String → ℕ → MemoryTopic → MemoryTopic
acknowledge name event_id t = record t {
  consumer_cursor = set_cursor name ((event_id + 1) % 2 ^ 64) t.consumer_cursor;
}

-- MemoryTopicManager::getData: the bytes that are sent, and the Result with how many results it has, or
-- its error. `none` is an empty vector of descriptors, whose first entry the code reads.
unfoldable pub get_data : List DataDescriptor → MemoryTopic → Option (Bytes × Outcome ℕ)
get_data [] t = none
get_data (d ∷ []) t = some (take (size_of d) (drop (offset_of d) t.events_data), returns 1)
get_data (d ∷ d' ∷ ds) t =
    some (take (size_of d) (drop (offset_of d) t.events_data), throws "Expected 1 descriptor")
