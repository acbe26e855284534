-- ===== src/Consumer/Acknowledge/Tests.antt =====
-- An event of a topic in memory is acknowledged.
use mofka.Prelude.{take, drop, ℕ, ◌≡◌, refl, some, List, [], ◌∷◌, arith}
use mofka.Rdma.{local_rdma, local_rdma-IsRdma}
use mofka.Provider.{Topics, find_topic}
use mofka.TopicManager.{fed_of, cursor_of}
use mofka.TopicManager.Memory.{MemoryTopic}
use mofka.TopicManager.Memory.Log.{Stored, topic_of}
use mofka.TopicManager.Memory.Manager.{
  memory_manager, MemoryLog, memory_manager-IsTopicManager, descs_of,
}
use mofka.Consumer.Acknowledge.{Event, acknowledge, acknowledge-feed_once}

abbrev log : List Stored
log =
    record { metadata = 1 ∷ 2 ∷ []; content = 9 ∷ [] }
    ∷ record { metadata = 3 ∷ []; content = 8 ∷ 7 ∷ [] }
    ∷ []

abbrev event : Event
event = record { id = 0; target = 5; topic_name = "t"; consumer_name = "c" }

abbrev providers : ℕ → Topics MemoryTopic
providers i = ("t", topic_of log []) ∷ []

acknowledge-feed_once_example :
    (t' : MemoryTopic) × (find_topic "t"
        (acknowledge local_rdma (memory_manager local_rdma) event providers 5)
      ≡ some t')
    × ((memory_manager local_rdma).feed_once 4
          (cursor_of "c" ((memory_manager local_rdma).consumer_cursor t'))
          "na"
          t'
        ≡ some (fed_of local_rdma 1 ((3 ∷ []) ∷ []) (take 1 (drop 1 (descs_of log))) "na"))
unfolding mofka.Provider.find_topic
acknowledge-feed_once_example =
    acknowledge-feed_once local_rdma (memory_manager local_rdma) MemoryLog
      (memory_manager-IsTopicManager local_rdma local_rdma-IsRdma) event providers (topic_of log [])
      ((1 ∷ 2 ∷ []) ∷ (3 ∷ []) ∷ []) (descs_of log) "na" 4 1 refl (log, [], refl, refl, refl)
      (omega arith) (omega arith) (omega arith) refl
