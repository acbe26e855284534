-- ===== src/Consumer/Futures/Matching.antt =====
-- The n-th pull gets the future of the n-th event, however pulls and events follow one another.
use mofka.Prelude.{
  length, ℕ, zero, suc, ◌+◌, ◌≡◌, refl, sym, ap, ap₂, Bool, true, false, List, [], ◌∷◌, ◌++◌, arith,
}
use mofka.Consumer.Futures.{
  Futures, emplace_back, pop_front, is_empty, pull, initial, take_promise, Action, pulls, receives,
  run,
}

-- a, a + 1, …, n of them.
abbrev pub interval : ℕ → ℕ → List ℕ
interval a zero = []
interval a (suc n) = a ∷ interval (a + 1) n

interval-append : (a n : ℕ) → interval a n ++ ((a + n) ∷ []) ≡ interval a (suc n)
interval-append a zero = let e : a + 0 ≡ a = omega arith in rw e
interval-append a (suc n) =
    let e : a + suc n ≡ a + 1 + n = omega arith in
    rw e (ap (λ r. a ∷ r) (interval-append (a + 1) n))

-- The queue while pulls are ahead by `suc d`, while neither is ahead, and while events are.
abbrev pulls_ahead : (r d : ℕ) → Futures
pulls_ahead r d = record { futures = interval r (suc d); futures_credit = true; made = r + suc d }

abbrev even : ℕ → Bool → Futures
even n credit = record { futures = []; futures_credit = credit; made = n }

abbrev events_ahead : (p d : ℕ) → Futures
events_ahead p d = record { futures = interval p (suc d); futures_credit = false; made = p + suc d }

pull-pulls_ahead : (r d : ℕ) → pull (pulls_ahead r d) ≡ (r + suc d, pulls_ahead r (suc d))
unfolding pull emplace_back
pull-pulls_ahead r d =
    let next : r + suc d + 1 ≡ r + suc (suc d) = omega arith in rw (interval-append r (suc d), next)

pull-even : (n : ℕ) (credit : Bool) → pull (even n credit) ≡ (n, pulls_ahead n 0)
unfolding pull emplace_back is_empty
pull-even n true = refl
pull-even n false = refl

pull-events_ahead_one : (p : ℕ) → pull (events_ahead p 0) ≡ (p, even (p + 1) false)
unfolding pull pop_front is_empty
pull-events_ahead_one p = refl

pull-events_ahead : (p d : ℕ) → pull (events_ahead p (suc d)) ≡ (p, events_ahead (p + 1) d)
unfolding pull pop_front is_empty
pull-events_ahead p d = let e : p + suc (suc d) ≡ p + 1 + suc d = omega arith in rw e

take-events_ahead :
    (p d : ℕ) → take_promise (events_ahead p d) ≡ (p + suc d, events_ahead p (suc d))
unfolding take_promise emplace_back
take-events_ahead p d =
    let next : p + suc d + 1 ≡ p + suc (suc d) = omega arith in rw (interval-append p (suc d), next)

take-even : (n : ℕ) (credit : Bool) → take_promise (even n credit) ≡ (n, events_ahead n 0)
unfolding take_promise emplace_back is_empty
take-even n true = refl
take-even n false = refl

take-pulls_ahead_one : (r : ℕ) → take_promise (pulls_ahead r 0) ≡ (r, even (r + 1) true)
unfolding take_promise pop_front is_empty
take-pulls_ahead_one r = refl

take-pulls_ahead : (r d : ℕ) → take_promise (pulls_ahead r (suc d)) ≡ (r, pulls_ahead (r + 1) d)
unfolding take_promise pop_front is_empty
take-pulls_ahead r d = let e : r + suc (suc d) ≡ r + 1 + suc d = omega arith in rw e

-- The queue after `p` pulls and `r` events.
data Phase (p r : ℕ) (f : Futures) : Type 0 where
  pulled : (d : ℕ) → p ≡ r + suc d → f ≡ pulls_ahead r d → Phase p r f
  level : (credit : Bool) → p ≡ r → f ≡ even p credit → Phase p r f
  received : (d : ℕ) → r ≡ p + suc d → f ≡ events_ahead p d → Phase p r f

pull-Phase : (p r : ℕ) (f : Futures) → Phase p r f → ((pull f).0 ≡ p) × Phase (p + 1) r (pull f).1
pull-Phase p r f (pulled d e q) =
    rw (q, pull-pulls_ahead r d) (sym e, pulled (suc d) (omega arith) refl)
pull-Phase p r f (level c e q) =
    rw (q, pull-even p c) (refl, pulled 0 (omega arith) (ap (λ n. pulls_ahead n 0) e))
pull-Phase p r f (received zero e q) =
    rw (q, pull-events_ahead_one p) (refl, level false (omega arith) refl)
pull-Phase p r f (received (suc d) e q) =
    rw (q, pull-events_ahead p d) (refl, received d (omega arith) refl)

take-Phase :
    (p r : ℕ) (f : Futures)
    → Phase p r f
    → ((take_promise f).0 ≡ r) × Phase p (r + 1) (take_promise f).1
take-Phase p r f (received d e q) =
    rw (q, take-events_ahead p d) (sym e, received (suc d) (omega arith) refl)
take-Phase p r f (level c e q) = rw (q, take-even p c) (e, received 0 (omega arith) refl)
take-Phase p r f (pulled zero e q) =
    rw (q, take-pulls_ahead_one r)
      (refl, level true (omega arith) (ap (λ n. even n true) (omega arith)))
take-Phase p r f (pulled (suc d) e q) =
    rw (q, take-pulls_ahead r d) (refl, pulled d (omega arith) refl)

run-Phase :
    (actions : List Action) (p r : ℕ) (f : Futures)
    → Phase p r f
    → ((run actions f).0 ≡ interval p (length (run actions f).0))
      × ((run actions f).1 ≡ interval r (length (run actions f).1))
unfolding run
run-Phase [] p r f h = (refl, refl)
run-Phase (pulls ∷ rest) p r f h =
    let (now, next) = pull-Phase p r f h in
    let (is, js) = run-Phase rest (p + 1) r (pull f).1 next in (ap₂ (λ a l. a ∷ l) now is, js)
run-Phase (receives ∷ rest) p r f h =
    let (now, next) = take-Phase p r f h in
    let (is, js) = run-Phase rest p (r + 1) (take_promise f).1 next in
    (is, ap₂ (λ a l. a ∷ l) now js)

-- In whatever order the user pulls and events arrive, and whatever the credit flag happens to be at
-- first, the pulls get the futures 0, 1, 2 and so on, and the events take the promises 0, 1, 2 and so
-- on: the n-th pull waits for the n-th event.
pub run-interval :
    (credit : Bool) (actions : List Action)
    → ((run actions (initial credit)).0 ≡ interval 0 (length (run actions (initial credit)).0))
      × ((run actions (initial credit)).1 ≡ interval 0 (length (run actions (initial credit)).1))
unfolding initial
run-interval credit actions = run-Phase actions 0 0 (even 0 credit) (level credit refl refl)
