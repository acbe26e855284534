-- ===== src/TopicManager/Interface.antt =====
-- include/mofka/TopicManager.hpp: the interface between the provider, the producers and consumers, and
-- the topic managers; and what each of them keeps to.
use mofka.TopicManager.Loop.{feed_loop}
use mofka.Prelude.{
  Outcome, length, take, drop, All, concat, lengths, ◌==◌, if◌then◌else◌, Bytes, IsU64, returns, ℕ,
  ◌+◌, ◌-◌, ◌%◌, ◌^◌, ◌≤◌, ◌<◌, min, String, ◌≡◌, Bool, Option, none, some, List, ◌++◌, str_eq,
}
use mofka.Rdma.{Rdma, BulkRef}
use mofka.TopicManager.{Fed, Cursors, fed_of, cursor_of}
use mofka.TopicManager.Packed.{whole, packed}

-- TopicManagerInterface, and of feedConsumer also one round, and the map that acknowledge changes. The
-- answer of `receive_batch` is an exception, an error or the first id; `feed_consumer` is over what each
-- round finds.
pub record TopicManager (R : Rdma) : Type 1 where
  pub Topic : Type 0
  pub receive_batch :
      (num_events : ℕ) (metadata_bulk data_bulk : BulkRef R.Bulk)
      → Topic
      → Option (Outcome (Outcome ℕ) × Topic)
  pub feed_once : (batch_size first_id : ℕ) (self_addr : String) → Topic → Option (Fed R.Bulk)
  pub feed_consumer :
      (name : String) (batch_size : ℕ) (self_addr : String)
      → Cursors
      → List (Bool × Topic)
      → List (Fed R.Bulk)
  pub acknowledge : String → ℕ → Topic → Topic
  pub consumer_cursor : Topic → Cursors

-- A topic stands for a log, as `IsLog` says, of metadata and saved descriptors, one of each for an event: a batch is
-- appended to it, consumers are fed ranges of it and wait at its end, and an acknowledgement leaves it and moves the
-- consumer.
pub record IsTopicManager (R : Rdma) (M : TopicManager R)
    (IsLog : (ms descs : List Bytes) → M.Topic → Type 0) : Type 0 where
  pub is_paired :
      (ms descs : List Bytes) (t : M.Topic) → IsLog ms descs t → length ms ≡ length descs
  pub is_small :
      (ms descs : List Bytes) (t : M.Topic) → IsLog ms descs t → All IsU64 (lengths descs)
  pub receives :
      (ms descs ns xs metadata_segments data_segments : List Bytes) (address : String) (t : M.Topic)
      → IsLog ms descs t
      → concat metadata_segments ≡ packed ns
      → concat data_segments ≡ packed xs
      → length ns ≡ length xs
      → All IsU64 (lengths ns)
      → IsU64 (length (packed xs))
      → (ds : List Bytes) × (t' : M.Topic) × (M.receive_batch
            (length ns)
            (whole R metadata_segments address)
            (whole R data_segments address)
            t
          ≡ some (returns (returns (length ms)), t'))
        × (length ds ≡ length ns)
        × IsLog (ms ++ ns) (descs ++ ds) t'
  pub feeds :
      (batch_size first_id num : ℕ) (address : String) (ms descs : List Bytes) (t : M.Topic)
      → IsLog ms descs t
      → 1 ≤ batch_size
      → first_id < length ms
      → IsU64 (length ms)
      → num ≡ min batch_size (length ms - first_id)
      → M.feed_once batch_size first_id address t
        ≡ some (
            fed_of R first_id
              (take num (drop first_id ms))
              (take num (drop first_id descs))
              address)
  pub waits :
      (batch_size : ℕ) (address : String) (ms descs : List Bytes) (t : M.Topic)
      → IsLog ms descs t
      → M.feed_once batch_size (length ms) address t ≡ none
  pub loops :
      (name : String) (batch_size : ℕ) (address : String) (cursors : Cursors)
      (rounds : List (Bool × M.Topic))
      → M.feed_consumer name batch_size address cursors rounds
        ≡ feed_loop
            (λ first_id t.
              M.feed_once (if batch_size == 0 then 2 ^ 64 - 1 else batch_size) first_id address t)
            (cursor_of name cursors)
            rounds
  pub acknowledges :
      (name : String) (id : ℕ) (ms descs : List Bytes) (t : M.Topic)
      → IsLog ms descs t
      → IsLog ms descs (M.acknowledge name id t)
  pub moves :
      (name n : String) (id : ℕ) (t : M.Topic)
      → cursor_of n (M.consumer_cursor (M.acknowledge name id t))
        ≡ (if str_eq name n then (id + 1) % 2 ^ 64 else cursor_of n (M.consumer_cursor t))
