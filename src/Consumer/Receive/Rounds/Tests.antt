-- ===== src/Consumer/Receive/Rounds/Tests.antt =====
-- A topic in memory that is empty in one round and has two events in the next.
use mofka.Consumer.Receive.Rounds.Whole.{feed_consumer_catches_up, receive_all-feed_consumer}
use mofka.Consumer.Receive.Delivery.{numbered}
use mofka.TopicManager.Memory.Manager.{
  memory_manager, descs_of, MemoryLog, memory_manager-IsTopicManager,
}
use mofka.TopicManager.Memory.{MemoryTopic}
use mofka.Rdma.{local_rdma, local_rdma-IsRdma}
use mofka.TopicManager.Memory.Log.{metadatas, Stored, topic_of}
use mofka.Consumer.Receive.Rounds.{receive_all}
use mofka.TopicManager.Interface.{TopicManager}
use mofka.Prelude.{
  take, Bytes, ℕ, ◌+◌, ◌≤◌, ◌≡◌, refl, Bool, true, false, some, List, [], ◌∷◌, arith,
}

abbrev events : List Stored
events =
    record { metadata = 1 ∷ 2 ∷ []; content = 9 ∷ [] }
    ∷ record { metadata = 3 ∷ []; content = 8 ∷ 7 ∷ [] }
    ∷ []

abbrev log : List Bytes
log = metadatas events

abbrev manager : TopicManager local_rdma
manager = memory_manager local_rdma

abbrev rounds : List (Bool × MemoryTopic)
rounds = (false, topic_of [] []) ∷ (false, topic_of events []) ∷ (true, topic_of events []) ∷ []

receive_all-feed_consumer_example :
    (n : ℕ) × (0 + n ≤ 2)
    × (receive_all local_rdma (manager.feed_consumer "c" 1 "na" [] rounds)
        ≡ some (numbered 0 (take n log) (take n (descs_of events))))
unfolding mofka.TopicManager.cursor_of mofka.TopicManager.Memory.Log.descriptors
receive_all-feed_consumer_example =
    receive_all-feed_consumer local_rdma manager MemoryLog
      (memory_manager-IsTopicManager local_rdma local_rdma-IsRdma) log (descs_of events) "c" "na" 1
      0 [] rounds local_rdma-IsRdma refl (omega arith) (omega arith) (omega arith) (omega arith)
      (
        0,
        omega arith,
        omega arith,
        ([], [], refl, refl, refl),
        (
          2,
          omega arith,
          omega arith,
          (events, [], refl, refl, refl),
          (2, omega arith, omega arith, (events, [], refl, refl, refl), tt),
        ),
      )

feed_consumer_catches_up_example :
    receive_all local_rdma (
      manager.feed_consumer "c" 1 "na" []
        ((false, topic_of events []) ∷ (false, topic_of events []) ∷ []))
    ≡ some (numbered 0 log (descs_of events))
unfolding mofka.TopicManager.cursor_of
feed_consumer_catches_up_example =
    feed_consumer_catches_up local_rdma manager MemoryLog
      (memory_manager-IsTopicManager local_rdma local_rdma-IsRdma) log (descs_of events) "c" "na" 1
      2 [] (topic_of events []) local_rdma-IsRdma (omega arith) (omega arith)
      (events, [], refl, refl, refl) (omega arith) (omega arith)
