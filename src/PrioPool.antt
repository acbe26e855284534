-- ===== src/PrioPool.antt =====
-- src/PrioPool.cpp: the Argobots pool of ULTs by priority. `std::priority_queue<ULT>` is the list of
-- its entries, the greatest in the order of `operator<` first.
pub mod Order
pub mod Tests
use mofka.Prelude.{
  length, ltb, if◌then◌else◌, ℕ, zero, suc, min, Bool, true, false, Option, none, some, List, [],
  ◌∷◌,
}

-- A ULT: the priority in its argument, if it has one, and its address.
pub record Ult : Type 0 where
  pub args : Option ℕ
  pub thread : ℕ

abbrev pub priority : Ult → ℕ
priority u = elim u.args [ none ↦ 0 | some p ↦ p ]

-- ULT::operator<. Addresses are below 2 ^ 63, so their order is that of `intptr_t`.
unfoldable pub less : Ult → Ult → Bool
less a b =
    if ltb (priority a) (priority b)
    then false
    else if ltb (priority b) (priority a)
    then true
    else ltb a.thread b.thread

abbrev pub Queue : Type 0
Queue = List Ult

-- std::priority_queue::emplace.
unfoldable pub emplace : Ult → Queue → Queue
emplace u [] = u ∷ []
emplace u (v ∷ q) = if less u v then v ∷ emplace u q else u ∷ v ∷ q

unfoldable pub pool_is_empty : Queue → Bool
pool_is_empty [] = true
pool_is_empty (u ∷ q) = false

unfoldable pub pool_get_size : Queue → ℕ
pool_get_size q = length q

unfoldable pub pool_push : Ult → Queue → Queue
pool_push u q = emplace u q

unfoldable pub pool_push_many : List Ult → Queue → Queue
pool_push_many [] q = q
pool_push_many (u ∷ us) q = pool_push_many us (emplace u q)

-- The ULT that is taken off, `none` for ABT_THREAD_NULL, and the queue that is left.
unfoldable pub pool_pop : Queue → Option Ult × Queue
pool_pop [] = (none, [])
pool_pop (u ∷ q) = (some u, q)

-- `arrivals` are the ULTs that others push during the wait, if it comes to one.
unfoldable pub pool_pop_wait : List Ult → Queue → Option Ult × Queue
pool_pop_wait arrivals q = pool_pop (if pool_is_empty q then pool_push_many arrivals q else q)

pop_times : ℕ → Queue → List Ult × Queue
pop_times zero q = ([], q)
pop_times (suc n) [] = ([], [])
pop_times (suc n) (u ∷ q) = (u ∷ (pop_times n q).0, (pop_times n q).1)

unfoldable pub pool_pop_many : ℕ → Queue → List Ult × Queue
unfolding pop_times
pool_pop_many max_threads q = pop_times (min max_threads (length q)) q
