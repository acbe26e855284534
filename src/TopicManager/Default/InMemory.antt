-- ===== src/TopicManager/Default/InMemory.antt =====
-- The topic in memory is the default topic with a data store in memory.
use mofka.Rdma.{Rdma, BulkRef}
use mofka.Prelude.{
  Outcome, length, take_all, ltb, Bytes, word, decode_words, returns, throws, ℕ, ◌*◌, ◌≤◌, String,
  ◌≡◌, refl, sym, ap, ◌∙◌, true, false, some, arith, dec_lt,
}
use mofka.TopicManager.{offsets_from}
use mofka.TopicManager.Memory.{MemoryTopic}
use mofka.TopicManager.Memory
use mofka.TopicManager.Default
use mofka.TopicManager.Default.AsDefault.{
  as_default, locations, memory_store, as_answer, as_answers, length-decode_words, length-locations,
  describe-as_default,
}

module _ (R : Rdma) where
  fewer : (n : ℕ) → ltb n n ≡ false
  fewer n = ground arith

  stored-as_answer :
      (num first_id : ℕ) (content : Bytes) (t : MemoryTopic)
      → let sizes = decode_words num content in
        Default.take_stored num first_id
          (returns (returns (locations (offsets_from (length t.events_data) sizes) sizes)))
          (as_default t)
        ≡ some (
            as_answer
              (returns first_id, Memory.describe first_id (Memory.add_data first_id num content t)))
  unfolding Default.take_stored as_answer
  stored-as_answer num first_id content t =
      let sizes = decode_words num content in
      let count : length (locations (offsets_from (length t.events_data) sizes) sizes) ≡ num =
        length-locations (length t.events_data) sizes ∙ length-decode_words num content in
      rw (count, fewer num)
        (rw
          (take_all num (locations (offsets_from (length t.events_data) sizes) sizes) (omega arith))
          (ap (λ u. some (returns (returns first_id), u))
            (sym (describe-as_default first_id num content t))))

  -- A batch is received alike, by what its two transfers come to.
  Alike : (num_events : ℕ) (metadata_bulk data_bulk : BulkRef R.Bulk) → MemoryTopic → Type 0
  Alike num_events metadata_bulk data_bulk t =
      Default.receive_batch R (memory_store R (length t.events_data)) num_events metadata_bulk
        data_bulk (as_default t)
      ≡ as_answers (Memory.receive_batch R num_events metadata_bulk data_bulk t)

  memory_store_lem :
      (stored num_events : ℕ) (data_bulk : BulkRef R.Bulk) (content : Bytes)
      → R.transfer data_bulk.handle data_bulk.offset data_bulk.size ≡ returns content
      → let sizes = decode_words num_events content in
        memory_store R stored num_events data_bulk
        ≡ returns (returns (locations (offsets_from stored sizes) sizes))
  unfolding memory_store
  memory_store_lem stored num_events data_bulk content e = rw (e, memory_store) refl

  memory_store_throws :
      (stored num_events : ℕ) (data_bulk : BulkRef R.Bulk) (what : String)
      → R.transfer data_bulk.handle data_bulk.offset data_bulk.size ≡ throws what
      → memory_store R stored num_events data_bulk ≡ throws what
  unfolding memory_store
  memory_store_throws stored num_events data_bulk what e = rw (e, memory_store) refl

  by_outcome :
      (num_events : ℕ) (metadata_bulk data_bulk : BulkRef R.Bulk) (t : MemoryTopic)
      (m d : Outcome Bytes)
      → R.transfer metadata_bulk.handle metadata_bulk.offset metadata_bulk.size ≡ m
      → R.transfer data_bulk.handle data_bulk.offset data_bulk.size ≡ d
      → ltb metadata_bulk.size (num_events * word) ≡ false
      → ltb data_bulk.size (num_events * word) ≡ false
      → Alike num_events metadata_bulk data_bulk t
  unfolding Alike Default.receive_batch Memory.receive_batch as_answers as_answer as_default
      Default.resize_metadata Memory.resize_metadata Default.take_stored Memory.resize_data
      Memory.add_metadata Default.add_metadata
  by_outcome num_events metadata_bulk data_bulk t (throws what) d em ed lm ld = rw (em, lm, ld) refl
  by_outcome num_events metadata_bulk data_bulk t (returns metadata) (throws what) em ed lm ld =
      rw (em, ed)
        (rw (lm, ld, memory_store_throws (length t.events_data) num_events data_bulk what ed) refl)
  by_outcome num_events metadata_bulk data_bulk t (returns metadata) (returns content) em ed lm ld =
      rw (em, ed)
        (rw (lm, ld, memory_store_lem (length t.events_data) num_events data_bulk content ed)
          (stored-as_answer num_events (length t.events_metadata_sizes) content
            (Memory.add_metadata num_events metadata t)))

  -- The topic in memory receives a batch as the default topic does with a data store that keeps the
  -- data in memory behind the topic's own data, in whatever state the topic is and whatever the
  -- transfers come to: the same answer, and the same topic but for the data. The reference to the data
  -- is not smaller than the sizes in it.
  pub receive_batch-as_default :
      (num_events : ℕ) (metadata_bulk data_bulk : BulkRef R.Bulk) (t : MemoryTopic)
      → num_events * word ≤ data_bulk.size
      → Default.receive_batch R
          (memory_store R (length t.events_data))
          num_events
          metadata_bulk
          data_bulk
          (as_default t)
        ≡ as_answers (Memory.receive_batch R num_events metadata_bulk data_bulk t)
  unfolding Alike Default.receive_batch Memory.receive_batch as_answers
  receive_batch-as_default num_events metadata_bulk data_bulk t h =
      elim (dec_lt metadata_bulk.size (num_events * word)) [
        | yes small ↦
            let e : ltb metadata_bulk.size (num_events * word) ≡ true = ground arith in rw e refl
        | no enough ↦
            by_outcome num_events metadata_bulk data_bulk t _ _ refl refl (ground arith)
              (ground arith)
      ]
