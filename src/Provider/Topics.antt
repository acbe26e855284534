-- ===== src/Provider/Topics.antt =====
-- What creating a topic does to the topics that can be opened.
use mofka.Result.{Result}
use mofka.Prelude.{
  Outcome, if◌then◌else◌, returns, String, ◌≡◌, refl, Bool, true, false, Option, none, some, List,
  [], ◌∷◌, arith, str_eq, str_eq_iff,
}
use mofka.Provider.{
  Topics, create_topic, find_topic, set_topic, named, success, no_topic, open_topic, TopicType,
  unnamed, invalid, failure, create_as,
}

pub find_topic-set_topic :
    {T : Type 0} (name k : String) (topic : T) (topics : Topics T)
    → find_topic k (set_topic name topic topics)
      ≡ (if str_eq name k then some topic else find_topic k topics)
unfolding find_topic set_topic
find_topic-set_topic name k topic [] = refl
find_topic-set_topic name k topic ((n, t) ∷ ts) = ground (
  arith,
  str_eq_iff name k,
  str_eq_iff n k,
  str_eq_iff n name,
  find_topic-set_topic name k topic ts,
)

module _ {R T : Type 0} (default : R) (report : T → R) (factory : String → Outcome (Option T)) where
  -- The answers to an open by what is found.
  answers : Option T → String → List (Result R)
  answers none k = no_topic default k ∷ no_topic default k ∷ []
  answers (some t) k = success default (report t) ∷ []

  open_topic-answers :
      (k : String) (topics : Topics T)
      → (open_topic default report k topics).0 ≡ answers (find_topic k topics) k
  unfolding open_topic answers no_topic
  open_topic-answers k topics = ground arith

  answers-if :
      (b : Bool) (t : T) (o : Option T) (k : String)
      → answers (if b then some t else o) k
        ≡ (if b then success default (report t) ∷ [] else answers o k)
  unfolding answers
  answers-if true t o k = refl
  answers-if false t o k = refl

  created :
      (type name : String) (topics : Topics T) (topic : T)
      → find_topic name topics ≡ none
      → factory type ≡ returns (some topic)
      → create_topic default report factory (named type) name topics
        ≡ (success default (report topic), set_topic name topic topics)
  unfolding create_topic create_as success
  created type name topics topic fresh made = ground arith

  -- A topic with a new name and of a type that its factory makes is created, and can then be opened
  -- under its name, with the report of what was made; under every other name, an open is answered as
  -- before.
  pub create_topic-open_topic :
      (type name k : String) (topics : Topics T) (topic : T)
      → find_topic name topics ≡ none
      → factory type ≡ returns (some topic)
      → ((create_topic default report factory (named type) name topics).0
          ≡ success default (report topic))
        × ((open_topic default report k
              (create_topic default report factory (named type) name topics).1).0
            ≡ (if str_eq name k
                then success default (report topic) ∷ []
                else (open_topic default report k topics).0))
  create_topic-open_topic type name k topics topic fresh made =
      rw (created type name topics topic fresh made) (
        refl,
        rw
            (
              open_topic-answers k (set_topic name topic topics),
              open_topic-answers k topics,
              find_topic-set_topic name k topic topics,
            )
            (answers-if (str_eq name k) topic (find_topic k topics) k),
      )

  create_as_keeps :
      (type name : String) (topics : Topics T)
      → (create_as default report factory type name topics).0.success ≡ false
      → (create_as default report factory type name topics).1 ≡ topics
  unfolding create_as success failure
  create_as_keeps type name topics h = ground arith

  -- A creation that is not successful leaves the topics as they were.
  pub create_topic_keeps :
      (type : TopicType) (name : String) (topics : Topics T)
      → (create_topic default report factory type name topics).0.success ≡ false
      → (create_topic default report factory type name topics).1 ≡ topics
  unfolding create_topic create_as success failure
  create_topic_keeps unnamed name topics h = create_as_keeps "default" name topics h
  create_topic_keeps invalid name topics h = refl
  create_topic_keeps (named type) name topics h = create_as_keeps type name topics h
