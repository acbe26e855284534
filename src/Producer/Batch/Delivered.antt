-- ===== src/Producer/Batch/Delivered.antt =====
-- The way of a batch from a producer, by any topic manager, to a consumer.
use mofka.Prelude.{
  length, length-append, All, lengths, Bytes, IsU64, returns, ℕ, ◌+◌, ◌≤◌, ◌<◌, String, ◌≡◌, sym,
  ◌∙◌, some, List, [], ◌∷◌, ◌++◌, append-nil, arith,
}
use mofka.Rdma.{Rdma, IsRdma}
use mofka.Consumer.Receive.{recv_batch}
use mofka.Consumer.Receive.Delivery.{numbered}
use mofka.Consumer.Receive.FromManager.{recv_batch-receive_batch}
use mofka.TopicManager.{Fed}
use mofka.TopicManager.Packed.{packed}
use mofka.TopicManager.Interface.{TopicManager, IsTopicManager}
use mofka.TopicManager.Memory.Log.{metadatas, contents, length-metadatas, length-contents}
use mofka.Producer.Batch.{Event, count, expose_metadata, expose_data}
use mofka.Producer.Batch.Sent.{
  stored, batch_of, metadata_reference, data_reference, metadata_reference-whole,
  data_reference-whole, counted, metadata_packed, data_packed, length-stored,
}

module _ {A P : Type 0} (serialize : A → Bytes → Bytes)
    (appends : (m : A) (buffer : Bytes) → serialize m buffer ≡ buffer ++ serialize m [])
    (memory : ℕ → ℕ) where
  -- The batch of some events arrives at a consumer: when a topic manager receives what the producer
  -- sends, it answers with the number of events before, feeds a consumer that is at the end of its log,
  -- and the consumer receives the serialized metadata of exactly these events, in the order of the
  -- pushes, under ids from that number on, with a descriptor for each. The serializer appends to its
  -- archive, the manager keeps to the interface, transfers within what is exposed succeed, the batch is
  -- not empty and not larger than that of the consumer, and the number of events and the sizes fit into
  -- 64 bits.
  pub recv_batch-batch_of :
      (R : Rdma) (M : TopicManager R) (IsLog : (ms descs : List Bytes) → M.Topic → Type 0)
      (keeps : IsTopicManager R M IsLog) (es : List (Event A P)) (batch_size : ℕ)
      (ms descs : List Bytes) (address self_addr : String) (t : M.Topic)
      → IsRdma R
      → IsLog ms descs t
      → 0 < length es
      → length es ≤ batch_size
      → All IsU64 (lengths (metadatas (stored serialize appends memory es)))
      → IsU64 (length (packed (contents (stored serialize appends memory es))))
      → IsU64 (length ms + length es)
      → (ds : List Bytes) × (t' : M.Topic) × (fed : Fed R.Bulk) × (M.receive_batch
            (count (batch_of serialize appends memory es))
            (metadata_reference serialize appends memory R es address)
            (data_reference serialize appends memory R es address)
            t
          ≡ some (returns (returns (length ms)), t'))
        × (M.feed_once batch_size (length ms) self_addr t' ≡ some fed)
        × (recv_batch R fed
            ≡ returns
                (some (numbered (length ms) (metadatas (stored serialize appends memory es)) ds)))
  recv_batch-batch_of R M IsLog keeps es batch_size ms descs address self_addr t law is_log h fits
        um ud u =
      let log = stored serialize appends memory es in
      let m = expose_metadata (batch_of serialize appends memory es) in
      let d = expose_data memory (batch_of serialize appends memory es) in
      let num : length (metadatas log) ≡ length es =
        length-metadatas log ∙ length-stored serialize appends memory es in
      let same_count : length (metadatas log) ≡ length (contents log) =
        omega (arith, length-metadatas log, length-contents log) in
      let (ds, t', fed, received, given, arrived) =
        recv_batch-receive_batch R M IsLog keeps batch_size ms descs (metadatas log) (contents log)
          (m ∷ []) (d ∷ []) address self_addr t law is_log
          (append-nil m ∙ metadata_packed serialize appends memory es h)
          (append-nil d ∙ data_packed serialize appends memory es h) same_count (omega (arith, num))
          (omega (arith, num)) um ud (omega (arith, num, length-append ms (metadatas log))) in
      (
        ds,
        t',
        fed,
        rw
            (
              metadata_reference-whole serialize appends memory R es address h,
              data_reference-whole serialize appends memory R es address h,
              counted serialize appends memory es ∙ sym num,
            )
            received,
        given,
        arrived,
      )
