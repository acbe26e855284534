-- ===== src/Future/Laws.antt =====
-- What the futures of a producer give once its batch was sent: Promise and Future of src/Promise.hpp put
use mofka.Future.{States, Future, set_value, set_exception}
use mofka.Prelude.{
  Outcome, All, returns, throws, ℕ, ◌≡◌, ◌≢◌, Option, none, some, List, [], ◌∷◌, map,
}
-- together with setPromises of src/ProducerBatchImpl.hpp.

module _ {A : Type 0} (again : Outcome A → Outcome A → Outcome A) where
  -- A promise is set to a value, or to an exception.
  unfoldable pub set_one : ℕ → Outcome A → States A → States A
  set_one p (returns value) m = set_value again (record { m_state = some p }) value m
  set_one p (throws ex) m = set_exception again (record { m_state = some p }) ex m

  -- Promises are set one after the other.
  unfoldable pub set_all : List (ℕ × Outcome A) → States A → States A
  unfolding set_one
  set_all [] m = m
  set_all ((q, v) ∷ sets) m = set_all sets (set_one q v m)

  -- No two promises are of one state.
  abbrev pub Distinct : List ℕ → Type 0
  Distinct [] = Unit {0}
  Distinct (p ∷ ps) = All (λ q. p ≢ q) ps × Distinct ps

  -- The state of each promise is there, and not set.
  abbrev pub Waiting : States A → List ℕ → Type 0
  Waiting m ps = All (λ q. m q ≡ some none) ps

  firsts : List (ℕ × Outcome A) → List ℕ
  firsts sets = map (λ r. r.0) sets
