-- ===== src/TopicManager/Loop.antt =====
-- The loops of feedConsumer, over what a round feeds. Both topic managers run them.
use mofka.Prelude.{
  ℕ, ◌+◌, ◌%◌, ◌^◌, ◌≡◌, refl, ap, Bool, true, false, Option, none, some, List, [], ◌∷◌,
}
use mofka.TopicManager.{Fed}

module _ {T B : Type 0} (feed_once : ℕ → T → Option (Fed B)) where
  -- Each round finds whether the consumer should stop, and the topic at that time.
  unfoldable pub feed_loop : ℕ → List (Bool × T) → List (Fed B)
  feed_loop first_id [] = []
  feed_loop first_id ((should_stop, t) ∷ rounds) = elim should_stop [
    | true ↦ []
    | false ↦ elim (feed_once first_id t) [
      | none ↦ feed_loop first_id rounds
      | some fed ↦ fed ∷ feed_loop ((first_id + fed.count) % 2 ^ 64) rounds
    ]
  ]

  -- A round that waits, and one that feeds.
  pub feed_loop_waits :
      (first_id : ℕ) (t : T) (rounds : List (Bool × T))
      → feed_once first_id t ≡ none
      → feed_loop first_id ((false, t) ∷ rounds) ≡ feed_loop first_id rounds
  unfolding feed_loop
  feed_loop_waits first_id t rounds e = rw (e, feed_loop) refl

  pub feed_loop_feeds :
      (first_id : ℕ) (t : T) (rounds : List (Bool × T)) (fed : Fed B)
      → feed_once first_id t ≡ some fed
      → feed_loop first_id ((false, t) ∷ rounds)
        ≡ fed ∷ feed_loop ((first_id + fed.count) % 2 ^ 64) rounds
  unfolding feed_loop
  feed_loop_feeds first_id t rounds fed e = rw (e, feed_loop) refl

-- Two continuations of a round that agree.
pub fed_or_wait :
    {B : Type 0} (o : Option (Fed B)) (waits waits' : List (Fed B))
    (feeds feeds' : Fed B → List (Fed B))
    → waits ≡ waits'
    → ((fed : Fed B) → feeds fed ≡ feeds' fed)
    → (elim o [ none ↦ waits | some fed ↦ fed ∷ feeds fed ])
      ≡ (elim o [ none ↦ waits' | some fed ↦ fed ∷ feeds' fed ])
fed_or_wait none waits waits' feeds feeds' e f = e
fed_or_wait (some fed) waits waits' feeds feeds' e f = ap (λ r. fed ∷ r) (f fed)
