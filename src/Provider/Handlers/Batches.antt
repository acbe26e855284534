-- ===== src/Provider/Handlers/Batches.antt =====
-- What ProviderImpl::receiveBatch does to the topics of a provider.
use mofka.Provider.Topics.{find_topic-set_topic}
use mofka.TopicManager.Packed.{packed, whole}
use mofka.Provider.{Topics, find_topic, set_topic, success}
use mofka.Prelude.{
  length, All, concat, lengths, if◌then◌else◌, Bytes, IsU64, returns, ℕ, String, ◌≡◌, refl, some,
  List, [], ◌∷◌, ◌++◌, str_eq,
}
use mofka.TopicManager.Interface.{TopicManager, IsTopicManager}
use mofka.Rdma.{Rdma, BulkRef}
use mofka.Provider.Handlers

module _ (R : Rdma) (M : TopicManager R) (IsLog : (ms descs : List Bytes) → M.Topic → Type 0)
    (keeps : IsTopicManager R M IsLog) where
  handled :
      (name : String) (count first_id : ℕ) (metadata data_bulk : BulkRef R.Bulk)
      (topics : Topics M.Topic) (t t' : M.Topic)
      → find_topic name topics ≡ some t
      → M.receive_batch count metadata data_bulk t ≡ some (returns (returns first_id), t')
      → Handlers.receive_batch R M name count metadata data_bulk topics
        ≡ some (returns (success 0 first_id ∷ []), set_topic name t' topics)
  unfolding Handlers.receive_batch
  handled name count first_id metadata data_bulk topics t t' e received =
      rw (e, received, Handlers.receive_batch) refl

  -- A batch for a topic of the provider is answered by the number of events that the topic had, and
  -- afterwards the topic has the batch behind these; every other topic is as it was.
  pub receive_batch-receives :
      (name : String) (ms descs ns xs metadata_segments data_segments : List Bytes)
      (address : String) (topics : Topics M.Topic) (t : M.Topic)
      → find_topic name topics ≡ some t
      → IsLog ms descs t
      → concat metadata_segments ≡ packed ns
      → concat data_segments ≡ packed xs
      → length ns ≡ length xs
      → All IsU64 (lengths ns)
      → IsU64 (length (packed xs))
      → (ds : List Bytes) × (t' : M.Topic) × (topics' : Topics M.Topic) × (Handlers.receive_batch R
            M name
            (length ns)
            (whole R metadata_segments address)
            (whole R data_segments address)
            topics
          ≡ some (returns (success 0 (length ms) ∷ []), topics'))
        × (length ds ≡ length ns)
        × IsLog (ms ++ ns) (descs ++ ds) t'
        × ((k : String)
            → find_topic k topics' ≡ (if str_eq name k then some t' else find_topic k topics))
  receive_batch-receives name ms descs ns xs msegs dsegs address topics t found is_log em ex e un
        ux =
      let (ds, t', received, count, is_log') =
        keeps.receives ms descs ns xs msegs dsegs address t is_log em ex e un ux in
      (
        ds,
        t',
        set_topic name t' topics,
        handled name (length ns) (length ms) (whole R msegs address) (whole R dsegs address) topics
            t t' found received,
        count,
        is_log',
        λ k. find_topic-set_topic name k t' topics,
      )
