-- ===== src/Consumer/Futures.antt =====
-- The queue of futures of src/ConsumerImpl.hpp, as Consumer::pull and ConsumerImpl::recvBatch of
-- src/Consumer.cpp use it. A promise and its future are one number, in the order of their making.
pub mod Matching
use mofka.Prelude.{if◌then◌else◌, ℕ, ◌+◌, Bool, true, false, not, ◌||◌, List, [], ◌∷◌, ◌++◌}

pub record Futures : Type 0 where
  pub futures : List ℕ
  pub futures_credit : Bool
  pub made : ℕ

-- A new queue. The constructor does not initialize m_futures_credit: `credit` is what it happens to be.
unfoldable pub initial : (credit : Bool) → Futures
initial credit = record { futures = []; futures_credit = credit; made = 0 }

-- CreateFutureAndPromise, put at the back of the queue.
emplace_back : Bool → Futures → ℕ × Futures
emplace_back credit f = (
  f.made,
  record { futures = f.futures ++ (f.made ∷ []); futures_credit = credit; made = f.made + 1 },
)

-- The front, taken off; on an empty queue a new pair.
pop_front : Bool → List ℕ → Futures → ℕ × Futures
unfolding emplace_back
pop_front credit [] f = emplace_back credit f
pop_front credit (i ∷ is) f = (i, record f { futures = is; futures_credit = credit })

is_empty : List ℕ → Bool
is_empty [] = true
is_empty (i ∷ is) = false

-- Consumer::pull: the future that the user gets.
unfoldable pub pull : Futures → ℕ × Futures
unfolding emplace_back pop_front is_empty
pull f =
    if f.futures_credit || is_empty f.futures
    then emplace_back true f
    else pop_front false f.futures f

-- The part of recvBatch that holds the mutex: the promise for the next event.
unfoldable pub take_promise : Futures → ℕ × Futures
unfolding emplace_back pop_front is_empty
take_promise f =
    if not f.futures_credit || is_empty f.futures
    then emplace_back false f
    else pop_front true f.futures f

pub data Action : Type 0 where
  pulls receives : Action

-- The futures that a series of pulls gave and the promises that a series of events took.
unfoldable pub run : List Action → Futures → List ℕ × List ℕ × Futures
run [] f = ([], [], f)
run (pulls ∷ rest) f = let (i, f') = pull f in let (is, js, f'') = run rest f' in (i ∷ is, js, f'')
run (receives ∷ rest) f =
    let (j, f') = take_promise f in let (is, js, f'') = run rest f' in (is, j ∷ js, f'')
