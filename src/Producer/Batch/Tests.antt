-- ===== src/Producer/Batch/Tests.antt =====
-- Runs of a batch, and its properties at concrete inputs.
use mofka.Consumer.Receive.Rounds.{receive_all}
use mofka.Producer.Batch.Consumed.{send_all, IsSized, receive_all-send_all}
use mofka.Producer.Batch.Answered.{reply_of, send_batch-receive_batch}
use mofka.Result.{Result}
use mofka.Provider.{find_topic, Topics}
use mofka.Provider.Handlers
use mofka.Producer.Batch.Sent.{
  stored, batch_of, receive_batch-batch_of, metadata_reference, data_reference,
}
use mofka.TopicManager.Memory.Log.{Stored, topic_of, contents, metadatas}
use mofka.Consumer.Receive.{recv_batch}
use mofka.Consumer.Receive.Delivery.{numbered}
use mofka.TopicManager.{Fed}
use mofka.TopicManager.Packed.{packed}
use mofka.TopicManager.Memory.{MemoryTopic, receive_batch}
use mofka.TopicManager.Memory.Manager.{
  memory_manager, MemoryLog, memory_manager-IsTopicManager, descs_of,
}
use mofka.Producer.Batch.Delivered.{recv_batch-batch_of}
use mofka.Rdma.{local_rdma, local_rdma-IsRdma}
use mofka.Prelude.{
  length, get_elem?, All, lengths, Bytes, IsU64, returns, ℕ, ◌*◌, ◌%◌, ◌≡◌, refl, false, some, List,
  [], ◌∷◌, ◌++◌, arith,
}
use mofka.Producer.Batch.{
  Event, ProducerBatch, empty_batch, push, count, expose_metadata, metadata_bulk_size, send_batch,
  bytes_at, exposed, expose_data, data_bulk_size,
}

-- A serializer that writes one byte; promises are numbered.
abbrev one_byte : ℕ → Bytes → Bytes
one_byte m buffer = buffer ++ (m ∷ [])

one_byte-appends : (m : ℕ) (buffer : Bytes) → one_byte m buffer ≡ buffer ++ one_byte m []
one_byte-appends m buffer = refl

abbrev event : ℕ → Event ℕ ℕ
event i = record { metadata = i; segments = record { ptr = 10 * i; size = 2 } ∷ []; promise = i }

abbrev two : ProducerBatch ℕ
two = record {
  meta_sizes = 1 ∷ 1 ∷ [];
  meta_buffer = 5 ∷ 6 ∷ [];
  data_sizes = 2 ∷ 2 ∷ [];
  data_segments = record { ptr = 50; size = 2 } ∷ record { ptr = 60; size = 2 } ∷ [];
  total_data_size = 4;
  promises = 5 ∷ 6 ∷ [];
}

two_runs : push one_byte (event 6) (push one_byte (event 5) empty_batch) ≡ two
unfolding push empty_batch
two_runs = refl

abbrev earlier : List Stored
earlier = record { metadata = 9 ∷ []; content = [] } ∷ []

abbrev events : List (Event ℕ ℕ)
events = event 5 ∷ event 6 ∷ []

-- Memory whose bytes are the last digits of their addresses.
abbrev digits : ℕ → ℕ
digits ptr = ptr % 10

sent_sizes : All IsU64 (lengths (contents (stored one_byte one_byte-appends digits events)))
unfolding exposed bytes_at
sent_sizes = (omega arith, (omega arith, tt))

receive_batch-batch_of_example :
    receive_batch local_rdma
      (count (batch_of one_byte one_byte-appends digits events))
      (record {
        handle = expose_metadata (batch_of one_byte one_byte-appends digits events) ∷ [];
        offset = 0;
        size = metadata_bulk_size (batch_of one_byte one_byte-appends digits events);
        address = "na";
      })
      (record {
        handle = expose_data digits (batch_of one_byte one_byte-appends digits events) ∷ [];
        offset = 0;
        size = data_bulk_size (batch_of one_byte one_byte-appends digits events);
        address = "na";
      })
      (topic_of earlier [])
    ≡ some (returns 1, topic_of (earlier ++ stored one_byte one_byte-appends digits events) [])
receive_batch-batch_of_example =
    receive_batch-batch_of one_byte one_byte-appends digits local_rdma earlier [] events "na"
      local_rdma-IsRdma (omega arith) (omega arith) sent_sizes

sent_size : IsU64 (length (packed (contents (stored one_byte one_byte-appends digits events))))
unfolding exposed bytes_at mofka.Prelude.encode_words mofka.Prelude.encode_u64
sent_size = omega arith

recv_batch-batch_of_example :
    (ds : List Bytes) × (t' : MemoryTopic) × (fed : Fed local_rdma.Bulk) × ((memory_manager
          local_rdma).receive_batch
        (count (batch_of one_byte one_byte-appends digits events))
        (metadata_reference one_byte one_byte-appends digits local_rdma events "na")
        (data_reference one_byte one_byte-appends digits local_rdma events "na")
        (topic_of earlier [])
      ≡ some (returns (returns 1), t'))
    × ((memory_manager local_rdma).feed_once 9 1 "na" t' ≡ some fed)
    × (recv_batch local_rdma fed
        ≡ returns
            (some (numbered 1 (metadatas (stored one_byte one_byte-appends digits events)) ds)))
recv_batch-batch_of_example =
    recv_batch-batch_of one_byte one_byte-appends digits local_rdma (memory_manager local_rdma)
      MemoryLog (memory_manager-IsTopicManager local_rdma local_rdma-IsRdma) events 9
      (metadatas earlier) (descs_of earlier) "na" "na" (topic_of earlier []) local_rdma-IsRdma
      (earlier, [], refl, refl, refl) (omega arith) (omega arith) (omega arith) sent_size
      (omega arith)

abbrev two_topics : Topics MemoryTopic
two_topics = ("a", topic_of [] []) ∷ ("b", topic_of earlier []) ∷ []

send_batch-receive_batch_example :
    (answers : List (Result ℕ)) × (topics' : Topics MemoryTopic) × (t' : MemoryTopic) × (log : List
      Bytes)
    × (ds : List Bytes) × (Handlers.receive_batch local_rdma
          (memory_manager local_rdma)
          "b"
          (count (batch_of one_byte one_byte-appends digits events))
          (metadata_reference one_byte one_byte-appends digits local_rdma events "na")
          (data_reference one_byte one_byte-appends digits local_rdma events "na")
          two_topics
        ≡ some (returns answers, topics'))
    × MemoryLog (metadatas earlier ++ log) ds t'
    × (id : ℕ) × (get_elem?
          (send_batch
            (λ s. s)
            (returns tt)
            (reply_of answers)
            (batch_of one_byte one_byte-appends digits events))
          1
        ≡ some (6, returns id))
    × (get_elem? (metadatas earlier ++ log) id ≡ some (6 ∷ []))
    × (find_topic "a" topics' ≡ some (topic_of [] []))
unfolding find_topic
send_batch-receive_batch_example =
    send_batch-receive_batch one_byte one_byte-appends digits local_rdma (memory_manager local_rdma)
      MemoryLog (memory_manager-IsTopicManager local_rdma local_rdma-IsRdma) events (λ s. s) "b"
      "na" "a" (metadatas earlier) (descs_of earlier) two_topics (topic_of earlier []) 1 (event 6)
      refl (earlier, [], refl, refl, refl) refl (omega arith) sent_size

abbrev batches : List (List (Event ℕ ℕ))
batches = (event 5 ∷ event 6 ∷ []) ∷ (event 7 ∷ []) ∷ []

batches-IsSized : All (IsSized one_byte one_byte-appends digits) batches
unfolding exposed bytes_at mofka.Prelude.encode_words mofka.Prelude.encode_u64
batches-IsSized =
    ((omega arith, omega arith, omega arith), ((omega arith, omega arith, omega arith), tt))

receive_all-send_all_example :
    (ds : List Bytes) × (t' : MemoryTopic) × (topics' : Topics MemoryTopic) × (send_all one_byte
        one_byte-appends digits local_rdma
        (memory_manager local_rdma)
        "b"
        "na"
        batches
        two_topics
      ≡ some topics')
    × (find_topic "b" topics' ≡ some t')
    × (length ds ≡ 3)
    × (receive_all local_rdma (
          (memory_manager local_rdma).feed_consumer "c" 1 "na"
            (("c", 1) ∷ [])
            ((false, t') ∷ (false, t') ∷ (false, t') ∷ []))
        ≡ some (numbered 1 ((5 ∷ []) ∷ (6 ∷ []) ∷ (7 ∷ []) ∷ []) ds))
unfolding find_topic mofka.TopicManager.cursor_of
receive_all-send_all_example =
    receive_all-send_all one_byte one_byte-appends digits local_rdma (memory_manager local_rdma)
      MemoryLog (memory_manager-IsTopicManager local_rdma local_rdma-IsRdma) batches "b" "na" "c"
      "na" 1 3 (metadatas earlier) (descs_of earlier) (("c", 1) ∷ []) two_topics
      (topic_of earlier []) local_rdma-IsRdma refl (earlier, [], refl, refl, refl) batches-IsSized
      (omega arith) (omega arith) refl (omega arith)
