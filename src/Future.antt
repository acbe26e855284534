-- ===== src/Future.antt =====
-- src/Promise.hpp and include/mofka/Future.hpp. A state, shared by the copies of a future and weakly by
-- its promises, stands in a memory at a number; it is freed with the last future. The variant of a value
-- and an exception is an Outcome. `again` is what Argobots makes of a state that is set a second time.
pub mod Laws
pub mod Tests
use mofka.Prelude.{
  Outcome, ◌==◌, if◌then◌else◌, returns, throws, ℕ, String, Bool, true, false, Option, none, some,
}

-- The memory of the states: freed or not made yet, or there with what was set.
abbrev pub States : Type 0 → Type 0
States A = ℕ → Option (Option (Outcome A))

unfoldable pub set_state : {A : Type 0} → ℕ → Option (Option (Outcome A)) → States A → States A
set_state p s m q = if p == q then s else m q

-- A promise that was default-constructed, or one of a state.
pub record Promise : Type 0 where
  pub m_state : Option ℕ

-- The functions of a future, by the state and the hooks that they capture. `none` is a future that was
-- default-constructed.
pub record Shared (A : Type 0) : Type 0 where
  pub state : ℕ
  pub on_wait : Option (States A → States A)
  pub on_test : Option (Bool → States A → States A)

abbrev pub Future : Type 0 → Type 0
Future A = Option (Shared A)

module _ {A : Type 0} where
  -- Promise::CreateFutureAndPromise, with the new state at `p`.
  unfoldable pub create_future_and_promise :
      (p : ℕ)
      → Option (States A → States A)
      → Option (Bool → States A → States A)
      → States A
      → (Future A × Promise) × States A
  unfolding set_state
  create_future_and_promise p on_wait on_test m = (
    (
      some (record { state = p; on_wait = on_wait; on_test = on_test }),
      record { m_state = some p },
    ),
    set_state p (some none) m,
  )

  module _ (again : Outcome A → Outcome A → Outcome A) where
    -- eventual::set_value.
    unfoldable pub set_eventual : Option (Outcome A) → Outcome A → Outcome A
    set_eventual none v = v
    set_eventual (some old) v = again old v

    -- What setValue and setException do with a locked state, or with one that is gone.
    unfoldable pub set_locked : ℕ → Option (Option (Outcome A)) → Outcome A → States A → States A
    unfolding set_state set_eventual
    set_locked p none v m = m
    set_locked p (some s) v m = set_state p (some (some (set_eventual s v))) m

    unfoldable pub set_variant : Option ℕ → Outcome A → States A → States A
    unfolding set_locked
    set_variant none v m = m
    set_variant (some p) v m = set_locked p (m p) v m

    -- Promise::setValue and Promise::setException.
    unfoldable pub set_value : Promise → A → States A → States A
    unfolding set_variant
    set_value promise value m = set_variant promise.m_state (returns value) m

    unfoldable pub set_exception : Promise → String → States A → States A
    unfolding set_variant
    set_exception promise ex m = set_variant promise.m_state (throws ex) m

  unfoldable pub run_hook : Option (States A → States A) → States A → States A
  run_hook none m = m
  run_hook (some hook) m = hook m

  -- What is set, if anything is.
  unfoldable pub value_at : ℕ → States A → Option (Outcome A)
  value_at p m = elim (m p) [ none ↦ none | some s ↦ s ]

  -- Future::wait: `none` is a wait for the state to be set.
  unfoldable pub wait : Future A → States A → Option (Outcome A) × States A
  unfolding run_hook value_at
  wait none m = (some (throws "Calling Future::wait on an invalid future"), m)
  wait (some f) m = let m' = run_hook f.on_wait m in (value_at f.state m', m')

  is_set : Option (Outcome A) → Bool
  is_set none = false
  is_set (some v) = true

  -- Future::completed.
  unfoldable pub completed : Future A → States A → Outcome Bool × States A
  unfolding value_at is_set
  completed none m = (throws "Calling Future::completed on an invalid future", m)
  completed (some f) m =
      let is_ready = is_set (value_at f.state m) in
      (returns is_ready, elim f.on_test [ none ↦ m | some hook ↦ hook is_ready m ])

  -- The last future of a state is destroyed.
  unfoldable pub release : Future A → States A → States A
  unfolding set_state
  release none m = m
  release (some f) m = set_state f.state none m
