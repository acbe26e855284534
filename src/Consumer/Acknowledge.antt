-- ===== src/Consumer/Acknowledge.antt =====
-- Event::acknowledge of src/Event.cpp, through the provider of the event's target to its topic.
pub mod Tests
use mofka.Result.{Result}
use mofka.Prelude.{
  length, take, drop, Bytes, IsU64, ℕ, ◌+◌, ◌-◌, ◌≤◌, ◌<◌, min, String, ◌≡◌, refl, ap, some, List,
  [], ◌∷◌, arith, str_eq_iff,
}
use mofka.Rdma.{Rdma}
use mofka.Provider.{Topics, find_topic, set_topic, success, with_topic}
use mofka.Provider.Topics.{find_topic-set_topic}
use mofka.Provider.Handlers
use mofka.Service.{set_provider}
use mofka.TopicManager.{fed_of, cursor_of}
use mofka.TopicManager.Interface.{TopicManager, IsTopicManager}
use mofka.Consumer.Receive.FromManager.{feed_once-acknowledge}

-- What an event knows of where it comes from: its target, and its topic and consumer by their names.
pub record Event : Type 0 where
  pub id : ℕ
  pub target : ℕ
  pub topic_name : String
  pub consumer_name : String

with_topic_found :
    {A T : Type 0} (default : A) (handle : T → Result A × T) (name : String) (topics : Topics T)
    (t : T)
    → find_topic name topics ≡ some t
    → with_topic default handle name topics
      ≡ ((handle t).0 ∷ [], set_topic name (handle t).1 topics)
unfolding with_topic
with_topic_found default handle name topics t e = rw (e, with_topic) refl

module _ (R : Rdma) (M : TopicManager R) where
  -- Event::acknowledge: the RPC is the handler of the provider.
  unfoldable pub acknowledge : Event → (ℕ → Topics M.Topic) → ℕ → Topics M.Topic
  unfolding set_provider
  acknowledge e providers =
      set_provider e.target
        (Handlers.acknowledge R M e.topic_name e.consumer_name e.id (providers e.target)).1
        providers

  set_provider_at :
      (i : ℕ) (topics : Topics M.Topic) (providers : ℕ → Topics M.Topic)
      → set_provider i topics providers i ≡ topics
  unfolding set_provider
  set_provider_at i topics providers = ground arith

  handled :
      (topic_name consumer_name : String) (id : ℕ) (topics : Topics M.Topic) (t : M.Topic)
      → find_topic topic_name topics ≡ some t
      → (Handlers.acknowledge R M topic_name consumer_name id topics).1
        ≡ set_topic topic_name (M.acknowledge consumer_name id t) topics
  unfolding Handlers.acknowledge
  handled topic_name consumer_name id topics t e =
      ap (λ a. a.1)
        (with_topic_found tt (λ topic. (success tt tt, M.acknowledge consumer_name id topic))
          topic_name topics t e)

  -- Event::acknowledge reaches the topic of the event: afterwards the provider of its target has, under
  -- the topic's name, one that feeds the event's consumer the events after this one, from the position
  -- that it has for that consumer, as many as there are up to the size of a batch. The provider had the
  -- topic, whose manager keeps to the interface, the size of a batch is not 0, there are events after
  -- the acknowledged one, and their number fits into 64 bits.
  pub acknowledge-feed_once :
      (IsLog : (ms descs : List Bytes) → M.Topic → Type 0) (keeps : IsTopicManager R M IsLog)
      (e : Event) (providers : ℕ → Topics M.Topic) (t : M.Topic) (ms descs : List Bytes)
      (self_addr : String) (batch_size num : ℕ)
      → find_topic e.topic_name (providers e.target) ≡ some t
      → IsLog ms descs t
      → 1 ≤ batch_size
      → e.id + 1 < length ms
      → IsU64 (length ms)
      → num ≡ min batch_size (length ms - (e.id + 1))
      → (t' : M.Topic) × (find_topic e.topic_name (acknowledge e providers e.target) ≡ some t')
        × (M.feed_once batch_size (cursor_of e.consumer_name (M.consumer_cursor t')) self_addr t'
            ≡ some (
                fed_of R
                  (e.id + 1)
                  (take num (drop (e.id + 1) ms))
                  (take num (drop (e.id + 1) descs))
                  self_addr))
  unfolding acknowledge
  acknowledge-feed_once IsLog keeps e providers t ms descs self_addr batch_size num found is_log b f
        u n =
      let t' = M.acknowledge e.consumer_name e.id t in
      (
        t',
        rw
            (
              set_provider_at e.target _ providers,
              handled e.topic_name e.consumer_name e.id (providers e.target) t found,
              find_topic-set_topic e.topic_name e.topic_name t' (providers e.target),
            )
            (ground (arith, str_eq_iff e.topic_name e.topic_name)),
        feed_once-acknowledge R M IsLog keeps e.consumer_name self_addr batch_size e.id num ms descs
            t is_log b f u n,
      )
