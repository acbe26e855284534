-- ===== src/Service/Opened.antt =====
-- A topic that is created at a service can be opened.
use mofka.Result.{Result}
use mofka.Provider.Topics.{create_topic-open_topic}
use mofka.Provider.{find_topic, Topics, TopicType, named, success}
use mofka.Prelude.{
  Outcome, length, if◌then◌else◌, Bool-cases, returns, ℕ, ◌%◌, ◌≤◌, String, ◌≡◌, refl, sym, ap, ◌≢◌,
  inl, inr, Bool, true, false, Option, none, some, List, [], ◌∷◌, arith, ℕ_discrete, str_eq,
  str_eq_iff,
}
use mofka.Provider
use mofka.Service.{
  Service, TopicHandle, FromMetadata, target_of, handle_of, reply, open_topic, set_provider,
  create_topic,
}

module _ {M P T V S Z : Type 0} (hash : String → ℕ) (from : FromMetadata M P V S Z)
    (default : M × (M × M)) (report : T → M × (M × M)) where
  -- What a call gave, without the topics that it left.
  abbrev pub outcome :
      Option (Outcome (TopicHandle V S Z) × Service P T) → Option (Outcome (TopicHandle V S Z))
  outcome none = none
  outcome (some (o, s)) = some o

  abbrev index : String → Service P T → ℕ
  index name s = hash name % length s.mofka_targets

  target_lem :
      (name : String) (s : Service P T)
      → 1 ≤ length s.mofka_targets
      → target_of hash name s ≡ some (index name s)
  unfolding target_of
  target_lem name s h = ground arith

  open_topic_lem :
      (k : String) (s : Service P T)
      → 1 ≤ length s.mofka_targets
      → outcome (open_topic hash from default report k s)
        ≡ some (
            handle_of from k s.mofka_targets
              (reply default (Provider.open_topic default report k (s.providers (index k s))).0))
  unfolding open_topic
  open_topic_lem k s h = rw (target_lem k s h, open_topic) refl

  -- The service after a provider's topics were replaced.
  abbrev with_topics : ℕ → Topics T → Service P T → Service P T
  with_topics i topics s = record s { providers = set_provider i topics s.providers }

  create_topic_lem :
      (factory : String → Outcome (Option T)) (type : TopicType) (name : String) (s : Service P T)
      → 1 ≤ length s.mofka_targets
      → let made =
          Provider.create_topic default report factory type name (s.providers (index name s)) in
        create_topic hash from default report factory type name s
        ≡ some (handle_of from name s.mofka_targets made.0, with_topics (index name s) made.1 s)
  unfolding create_topic
  create_topic_lem factory type name s h = rw (target_lem name s h, create_topic) refl

  set_provider_same :
      (i : ℕ) (topics : Topics T) (providers : ℕ → Topics T)
      → set_provider i topics providers i ≡ topics
  unfolding set_provider
  set_provider_same i topics providers = ground arith

  set_provider_other :
      (i j : ℕ) (topics : Topics T) (providers : ℕ → Topics T)
      → i ≢ j
      → set_provider i topics providers j ≡ providers j
  unfolding set_provider
  set_provider_other i j topics providers n = ground arith

  by_name :
      (name k : String) (topic : T) (made : Result (M × (M × M)))
      → made ≡ success default (report topic)
      → (targets : List P) (before : List (Result (M × (M × M))))
      → handle_of from k targets
          (reply default (if str_eq name k then success default (report topic) ∷ [] else before))
        ≡ (if str_eq name k
            then handle_of from name targets made
            else handle_of from k targets (reply default before))
  unfolding reply
  by_name name k topic made e targets before = elim (Bool-cases (str_eq name k)) [
    | inl same ↦
        rw (same, e)
          (ap (λ n. handle_of from n targets (success default (report topic)))
            (sym ((str_eq_iff name k).0 same)))
    | inr different ↦ rw different refl
  ]

  some_if :
      {A : Type 0} (b : Bool) (x y : A) → some (if b then x else y) ≡ (if b then some x else some y)
  some_if true x y = refl
  some_if false x y = refl

  -- The answers to an open after a topic was created, when both go to the same provider or to others.
  reopened :
      (factory : String → Outcome (Option T)) (type name k : String) (s : Service P T) (topic : T)
      → find_topic name (s.providers (index name s)) ≡ none
      → factory type ≡ returns (some topic)
      → let i = index name s in
        let made = Provider.create_topic default report factory (named type) name (s.providers i) in
        handle_of from k s.mofka_targets (
          reply default
            (Provider.open_topic default report k
              (set_provider i made.1 s.providers (index k s))).0)
        ≡ (if str_eq name k
            then handle_of from name s.mofka_targets made.0
            else handle_of from k s.mofka_targets
                (reply default (Provider.open_topic default report k (s.providers (index k s))).0))
  reopened factory type name k s topic fresh m =
      let i = index name s in
      let topics = Provider.create_topic default report factory (named type) name (s.providers i) in
      let (made, opened) =
        create_topic-open_topic default report factory type name k (s.providers i) topic fresh m in
      elim (ℕ_discrete i (index k s)) [
        | yes here ↦ rw (← here) (
            rw (set_provider_same i topics.1 s.providers, opened)
              (by_name name k topic topics.0 made s.mofka_targets _))
        | no other ↦
            let apart : str_eq name k ≡ false = elim (Bool-cases (str_eq name k)) [
              | inl same ↦ elim (other (ap (λ n. index n s) ((str_eq_iff name k).0 same))) [ ]
              | inr different ↦ different
            ] in
            rw (set_provider_other i (index k s) topics.1 s.providers other, apart) refl
      ]

  -- After a topic is created at a service, an open of its name gives the same handle as its creation, or
  -- the same exception of a FromMetadata, and an open of any other name gives what it gave before,
  -- whichever targets the names are hashed to. The service has a target, the provider that the name is
  -- hashed to has no topic of that name, and its factory makes one of the type.
  pub open_topic-create_topic :
      (factory : String → Outcome (Option T)) (type name k : String) (s : Service P T) (topic : T)
      → 1 ≤ length s.mofka_targets
      → find_topic name (s.providers (hash name % length s.mofka_targets)) ≡ none
      → factory type ≡ returns (some topic)
      → (handle : Outcome (TopicHandle V S Z)) × (s' : Service P T) × (create_topic hash from
            default report factory
            (named type)
            name
            s
          ≡ some (handle, s'))
        × (outcome (open_topic hash from default report k s') ≡ (
            if str_eq name k
            then some handle
            else outcome (open_topic hash from default report k s)))
  open_topic-create_topic factory type name k s topic some_target fresh m =
      let i = index name s in
      let made = Provider.create_topic default report factory (named type) name (s.providers i) in
      (
        handle_of from name s.mofka_targets made.0,
        with_topics i made.1 s,
        create_topic_lem factory (named type) name s some_target,
        rw (open_topic_lem k (with_topics i made.1 s) some_target, open_topic_lem k s some_target)
            (rw (reopened factory type name k s topic fresh m) (some_if (str_eq name k) _ _)),
      )
