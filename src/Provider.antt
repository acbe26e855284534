-- ===== src/Provider.antt =====
-- The topics of src/ProviderImpl.hpp. A handler gives the answers that it sends, in their order, and
-- the topics that it leaves. `T` is a topic manager, `R` what it reports of its validator, selector
-- and serializer. Consumers and the logs are left out.
pub mod Topics
pub mod Handlers
pub mod Creation
pub mod Consumers
use mofka.Prelude.{
  Outcome, if◌then◌else◌, returns, throws, String, true, false, Option, none, some, List, [], ◌∷◌,
  str_append, str_eq,
}
use mofka.Result.{Result}

-- m_topics_by_name.
abbrev pub Topics : Type 0 → Type 0
Topics T = List (String × T)

module _ {T : Type 0} where
  unfoldable pub find_topic : String → Topics T → Option T
  find_topic name [] = none
  find_topic name ((n, t) ∷ ts) = if str_eq n name then some t else find_topic name ts

  -- m_topics_by_name[name] = topic.
  unfoldable pub set_topic : String → T → Topics T → Topics T
  set_topic name topic [] = (name, topic) ∷ []
  set_topic name topic ((n, t) ∷ ts) =
      if str_eq n name then (name, topic) ∷ ts else (n, t) ∷ set_topic name topic ts

-- What JSON of the backend's configuration says of the type: not an object or no `__type__`, one that
-- is no string, or a string.
pub data TopicType : Type 0 where
  unnamed invalid : TopicType
  named : String → TopicType

module _ {R : Type 0} (default : R) where
  unfoldable pub failure : String → Result R
  failure error = record { success = false; error = error; value = default }

  unfoldable pub success : R → Result R
  success value = record { success = true; error = ""; value = value }

  no_topic : String → Result R
  unfolding failure
  no_topic name = failure (str_append (str_append "Topic with name \"" name) "\" not found")

  module _ {T : Type 0} (report : T → R) (factory : String → Outcome (Option T)) where
    -- The part of createTopic that holds the mutex, for a type of topics.
    create_as : String → String → Topics T → Result R × Topics T
    unfolding failure success
    create_as type name topics = elim (find_topic name topics) [
      | some t ↦
          (failure (str_append (str_append "Topic with name \"" name) "\" already exists"), topics)
      | none ↦ elim (factory type) [
        | throws what ↦ (
          failure (
              str_append (str_append (str_append "Error when creating topic \"" name) "\": ") what),
          topics,
        )
        | returns none ↦ (
          failure (
              str_append
                (str_append (str_append (str_append "Unknown topic type \"" type) "\" for topic \"")
                  name)
                "\""),
          topics,
        )
        | returns (some topic) ↦ (success (report topic), set_topic name topic topics)
      ]
    ]

    -- ProviderImpl::createTopic.
    unfoldable pub create_topic : TopicType → String → Topics T → Result R × Topics T
    unfolding create_as failure
    create_topic unnamed name topics = create_as "default" name topics
    create_topic invalid name topics =
        (failure "Invalid type for __type__ field in topic config, expected string", topics)
    create_topic (named type) name topics = create_as type name topics

  module _ {T : Type 0} where
    -- FIND_TOPIC_BY_NAME and what follows it in openTopic, receiveBatch, acknowledge and requestData: a
    -- topic that is not there is answered by the macro and, when the handler returns, once more.
    unfoldable pub with_topic : (T → Result R × T) → String → Topics T → List (Result R) × Topics T
    unfolding no_topic
    with_topic handle name topics = elim (find_topic name topics) [
      | none ↦ (no_topic name ∷ no_topic name ∷ [], topics)
      | some topic ↦
          let (result, topic') = handle topic in (result ∷ [], set_topic name topic' topics)
    ]

    -- ProviderImpl::openTopic.
    unfoldable pub open_topic : (T → R) → String → Topics T → List (Result R) × Topics T
    unfolding with_topic success
    open_topic report name topics =
        with_topic (λ topic. (success (report topic), topic)) name topics
