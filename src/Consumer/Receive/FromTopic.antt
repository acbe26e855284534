-- ===== src/Consumer/Receive/FromTopic.antt =====
-- The way of events from the log of a topic in memory to a consumer.
use mofka.Prelude.{
  length, take, drop, length-take, length-drop, All, lengths, length-lengths, Bytes, IsU64, returns,
  ℕ, ◌-◌, ◌≤◌, ◌<◌, min, String, ◌≡◌, some, List, arith,
}
use mofka.Rdma.{Rdma, IsRdma}
use mofka.Consumer.Receive.{recv_batch}
use mofka.Consumer.Receive.Delivery.{numbered, recv_batch-fed_of}
use mofka.TopicManager.{Fed, Cursors, fed_of}
use mofka.TopicManager.Memory.{feed_once}
use mofka.TopicManager.Memory.Log.{
  Stored, metadatas, contents, topic_of, descriptors, length-metadatas, length-contents,
  length-descriptors, descriptors-IsU64,
}
use mofka.TopicManager.Memory.Feed.{feed_once-topic_of}

-- The metadata and the saved descriptors of a range of events.
abbrev pub metadatas_at : (num first_id : ℕ) → List Stored → List Bytes
metadatas_at num first_id es = metadatas (take num (drop first_id es))

abbrev pub descriptors_at : (num first_id : ℕ) → List Stored → List Bytes
descriptors_at num first_id es = take num (drop first_id (descriptors 0 (lengths (contents es))))

module _ (R : Rdma) where
  count_lem :
      (num first_id : ℕ) (es : List Stored)
      → length (metadatas_at num first_id es) ≡ length (descriptors_at num first_id es)
  count_lem num first_id es =
      let ds = descriptors 0 (lengths (contents es)) in
      omega (
        arith,
        length-metadatas (take num (drop first_id es)),
        length-take num (drop first_id es),
        length-drop first_id es,
        length-take num (drop first_id ds),
        length-drop first_id ds,
        length-descriptors 0 (lengths (contents es)),
        length-lengths (contents es),
        length-contents es,
      )

  -- A consumer that is behind the log of a topic receives what it is fed: the metadata of the events
  -- from its position on and the saved descriptors of their data, as many as the size of a batch
  -- allows, under their ids. Transfers within what is exposed succeed, the size of a batch is not 0,
  -- and the number of events and the sizes of the metadata fit into 64 bits.
  pub recv_batch-feed_once :
      (batch_size first_id num : ℕ) (address : String) (es : List Stored) (cursors : Cursors)
      → IsRdma R
      → 1 ≤ batch_size
      → first_id < length es
      → IsU64 (length es)
      → num ≡ min batch_size (length es - first_id)
      → All IsU64 (lengths (metadatas_at num first_id es))
      → (fed : Fed R.Bulk) × (feed_once R batch_size first_id address (topic_of es cursors)
          ≡ some fed)
        × (recv_batch R fed
            ≡ returns (
                some (
                  numbered first_id
                    (metadatas_at num first_id es)
                    (descriptors_at num first_id es))))
  recv_batch-feed_once batch_size first_id num address es cursors law b f u n um =
      let ms = metadatas_at num first_id es in
      let descs = descriptors_at num first_id es in
      let ud = descriptors-IsU64 num first_id 0 (lengths (contents es)) in
      (
        fed_of R first_id ms descs address,
        rw n (feed_once-topic_of R batch_size first_id address es cursors b f u),
        recv_batch-fed_of R first_id ms descs address law (count_lem num first_id es) um ud,
      )
