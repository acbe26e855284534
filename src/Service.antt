-- ===== src/Service.antt =====
-- src/ServiceHandle.cpp and src/ServiceHandleImpl.hpp, with the constructor in src/TopicHandleImpl.hpp:
-- topics of a service of several targets, each at a provider of its own. `hash` is std::hash, `from` are
-- the three FromMetadata, `set_targets` is that of a selector. An RPC is the handler of the provider;
-- its reply is the first answer.
pub mod Opened
pub mod Tests
use mofka.Prelude.{
  Outcome, ◌>>=◌, length, ◌==◌, if◌then◌else◌, returns, throws, ℕ, ◌%◌, String, true, Option, none,
  some, List, [], ◌∷◌,
}
use mofka.Result.{Result}
use mofka.Provider.{Topics, TopicType, success}
use mofka.Provider

-- ServiceHandleImpl: the targets, and the topics at the provider of each.
pub record Service (P T : Type 0) : Type 0 where
  pub mofka_targets : List P
  pub providers : ℕ → Topics T

-- TopicHandleImpl.
pub record TopicHandle (V S Z : Type 0) : Type 0 where
  pub name : String
  pub validator : V
  pub selector : S
  pub serializer : Z

-- What the client makes of the Metadata that a provider reports.
pub record FromMetadata (M P V S Z : Type 0) : Type 0 where
  pub validator_from : M → Outcome V
  pub selector_from : M → Outcome S
  pub serializer_from : M → Outcome Z
  pub set_targets : S → List P → S

unfoldable pub set_provider : {T : Type 0} → ℕ → Topics T → (ℕ → Topics T) → ℕ → Topics T
set_provider i topics providers j = if i == j then topics else providers j

-- `hash % m_mofka_targets.size()`; `none` is a service without targets.
unfoldable pub target_of : {P T : Type 0} → (hash : String → ℕ) → String → Service P T → Option ℕ
target_of hash name s =
    if length s.mofka_targets == 0 then none else some (hash name % length s.mofka_targets)

-- The handle for a response, or the exception.
unfoldable pub handle_of :
    {M P V S Z : Type 0}
    → FromMetadata M P V S Z
    → String
    → List P
    → Result (M × (M × M))
    → Outcome (TopicHandle V S Z)
handle_of from name targets response =
    if response.success
    then (do
      validator ← from.validator_from response.value.0
      selector ← from.selector_from response.value.1.0
      serializer ← from.serializer_from response.value.1.1
      returns (record {
        name = name;
        validator = validator;
        selector = from.set_targets selector targets;
        serializer = serializer;
      }))
    else throws response.error

unfoldable pub reply : {R : Type 0} → R → List (Result R) → Result R
reply default [] = record { success = true; error = ""; value = default }
reply default (r ∷ rs) = r

module _ {M P T V S Z : Type 0} (hash : String → ℕ) (from : FromMetadata M P V S Z)
    (default : M × (M × M)) (report : T → M × (M × M)) where
  -- ServiceHandle::createTopic, and the topics that it leaves. `factory` makes a topic of the given
  -- configuration, validator, selector and serializer.
  unfoldable pub create_topic :
      (String → Outcome (Option T))
      → TopicType
      → String
      → Service P T
      → Option (Outcome (TopicHandle V S Z) × Service P T)
  unfolding target_of handle_of set_provider
  create_topic factory type name s = elim (target_of hash name s) [
    | none ↦ none
    | some i ↦
        let (response, topics) =
          Provider.create_topic default report factory type name (s.providers i) in
        some (
          handle_of from name s.mofka_targets response,
          record s { providers = set_provider i topics s.providers },
        )
  ]

  -- ServiceHandle::openTopic.
  unfoldable pub open_topic :
      String → Service P T → Option (Outcome (TopicHandle V S Z) × Service P T)
  unfolding target_of handle_of set_provider reply
  open_topic name s = elim (target_of hash name s) [
    | none ↦ none
    | some i ↦
        let (responses, topics) = Provider.open_topic default report name (s.providers i) in
        some (
          handle_of from name s.mofka_targets (reply default responses),
          record s { providers = set_provider i topics s.providers },
        )
  ]
