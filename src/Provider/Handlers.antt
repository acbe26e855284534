-- ===== src/Provider/Handlers.antt =====
-- Handlers of src/ProviderImpl.hpp that call a topic, over the interface of topic managers.
pub mod Batches
use mofka.TopicManager.Memory.{MemoryTopic, get_data}
use mofka.Consumer.Receive.Request.{Answer}
use mofka.Descriptor.{DataDescriptor}
use mofka.Prelude.{
  Outcome, replicate, Bytes, returns, throws, ℕ, String, true, Option, none, some, List, [], ◌∷◌,
}
use mofka.Rdma.{Rdma, BulkRef}
use mofka.Result.{Result, of_bool}
use mofka.Provider.{Topics, with_topic, success, find_topic, set_topic, failure, no_topic}
use mofka.TopicManager.Interface.{TopicManager}

module _ (R : Rdma) (M : TopicManager R) where
  -- ProviderImpl::acknowledge.
  unfoldable pub acknowledge :
      (topic_name consumer_name : String) (event_id : ℕ)
      → Topics M.Topic
      → List (Result (Unit {0})) × Topics M.Topic
  unfolding with_topic
  acknowledge topic_name consumer_name event_id topics =
      with_topic tt (λ topic. (success tt tt, M.acknowledge consumer_name event_id topic))
        topic_name topics

  -- How a handler answers what receiveBatch of the topic gives: an exception leaves the handler.
  answer : Outcome (Outcome ℕ) → Outcome (List (Result ℕ))
  answer (throws what) = throws what
  answer (returns (throws error)) = returns (failure 0 error ∷ [])
  answer (returns (returns first_id)) = returns (success 0 first_id ∷ [])

  -- ProviderImpl::receiveBatch: the answers that it sends, or the exception of the topic.
  unfoldable pub receive_batch :
      (topic_name : String) (count : ℕ) (metadata data_bulk : BulkRef R.Bulk)
      → Topics M.Topic
      → Option (Outcome (List (Result ℕ)) × Topics M.Topic)
  unfolding answer no_topic
  receive_batch topic_name count metadata data_bulk topics = elim (find_topic topic_name topics) [
    | none ↦ some (returns (no_topic 0 topic_name ∷ no_topic 0 topic_name ∷ []), topics)
    | some topic ↦ elim (M.receive_batch count metadata data_bulk topic) [
      | none ↦ none
      | some (outcome, topic') ↦ some (answer outcome, set_topic topic_name topic' topics)
    ]
  ]

-- ProviderImpl::requestData, over the getData of a topic: each answer with what was written for it.
module _ {T B : Type 0} (get_data : List DataDescriptor → BulkRef B → T → Option Answer) where
  unfoldable pub request_data :
      (topic_name : String) → DataDescriptor → BulkRef B → Topics T → Option (List Answer)
  unfolding no_topic
  request_data topic_name descriptor remote_bulk topics = elim (find_topic topic_name topics) [
    | none ↦
        let refused : Answer = record { result = no_topic [] topic_name; written = [] } in
        some (refused ∷ refused ∷ [])
    | some topic ↦ elim (get_data (descriptor ∷ []) remote_bulk topic) [
      | none ↦ none
      | some a ↦ some (a ∷ [])
    ]
  ]

-- The Result of MemoryTopicManager::getData, which has a result for each descriptor.
memory_answer : Bytes × Outcome ℕ → Answer
memory_answer (written, returns n) = record {
  result = success [] (replicate n (of_bool true));
  written = written;
}
memory_answer (written, throws error) = record { result = failure [] error; written = written }

unfoldable pub memory_get_data :
    {B : Type 0} → List DataDescriptor → BulkRef B → MemoryTopic → Option Answer
unfolding memory_answer
memory_get_data descriptors bulk t = elim (get_data descriptors t) [
  | none ↦ none
  | some sent ↦ some (memory_answer sent)
]
