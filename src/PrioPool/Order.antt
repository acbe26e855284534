-- ===== src/PrioPool/Order.antt =====
-- The pool hands out the ULTs of the smallest priority number first, and loses none.
use mathlib.Core.List.{Perm, perm_middle}
use mathlib.Core.List.Perm
use mofka.Prelude.{
  length, All, Bool-cases, ℕ, zero, suc, ◌≤◌, min, ◌≡◌, refl, ap, inl, inr, true, false, Option,
  none, some, List, [], ◌∷◌, ◌++◌, arith,
}
use mofka.PrioPool.{
  Ult, priority, less, Queue, emplace, pool_push_many, pool_pop, pop_times, pool_pop_many,
}

-- `operator<` is a strict weak order, as std::priority_queue needs.
pub less-asymm : (a b : Ult) → less a b ≡ true → less b a ≡ false
unfolding less
less-asymm a b h = ground arith

pub not_less_trans : (a b c : Ult) → less a b ≡ false → less b c ≡ false → less a c ≡ false
unfolding less
not_less_trans a b c h k = ground arith

-- No entry is greater than one before it.
abbrev pub IsOrdered : Queue → Type 0
IsOrdered [] = Unit {0}
IsOrdered (u ∷ q) = All (λ v. less u v ≡ false) q × IsOrdered q

All-not_less :
    (u v : Ult) (q : Queue)
    → less u v ≡ false
    → All (λ w. less v w ≡ false) q
    → All (λ w. less u w ≡ false) q
All-not_less u v [] h a = tt
All-not_less u v (w ∷ q) h a = (not_less_trans u v w h a.0, All-not_less u v q h a.1)

All-emplace {ℓ} : (P : Ult → Type ℓ) (u : Ult) (q : Queue) → P u → All P q → All P (emplace u q)
unfolding emplace
All-emplace P u [] p a = (p, tt)
All-emplace P u (v ∷ q) p a = elim (Bool-cases (less u v)) [
  | inl below ↦ rw below (a.0, All-emplace P u q p a.1)
  | inr above ↦ rw above (p, a)
]

pub emplace-IsOrdered : (u : Ult) (q : Queue) → IsOrdered q → IsOrdered (emplace u q)
unfolding emplace
emplace-IsOrdered u [] o = (tt, tt)
emplace-IsOrdered u (v ∷ q) o = elim (Bool-cases (less u v)) [
  | inl below ↦ rw below (
    All-emplace (λ w. less v w ≡ false) u q (less-asymm u v below) o.0,
    emplace-IsOrdered u q o.1,
  )
  | inr above ↦ rw above ((above, All-not_less u v q above o.0), o)
]

emplace-perm : (u : Ult) (q : Queue) → Perm (emplace u q) (u ∷ q)
unfolding emplace
emplace-perm u [] = Perm.refl (u ∷ [])
emplace-perm u (v ∷ q) = elim (Bool-cases (less u v)) [
  | inl below ↦ rw below (Perm.trans (Perm.cons v (emplace-perm u q)) (Perm.swap u v q))
  | inr above ↦ rw above (Perm.refl (u ∷ v ∷ q))
]

-- Pushing many ULTs to an ordered queue keeps it ordered, and the queue then has what it had
-- and what was pushed.
pub pool_push_many-IsOrdered :
    (us : List Ult) (q : Queue)
    → IsOrdered q
    → IsOrdered (pool_push_many us q) × Perm (pool_push_many us q) (us ++ q)
unfolding pool_push_many
pool_push_many-IsOrdered [] q o = (o, Perm.refl q)
pool_push_many-IsOrdered (u ∷ us) q o =
    let (ordered, perm) = pool_push_many-IsOrdered us (emplace u q) (emplace-IsOrdered u q o) in
    (
      ordered,
      Perm.trans perm
          (Perm.trans (Perm.append (Perm.refl us) (emplace-perm u q)) (perm_middle us q)),
    )

less-priority : (u v : Ult) → less u v ≡ false → priority u ≤ priority v
unfolding less
less-priority u v h = ground arith

All-priority :
    (u : Ult) (q : Queue) → All (λ v. less u v ≡ false) q → All (λ v. priority u ≤ priority v) q
All-priority u [] a = tt
All-priority u (v ∷ q) a = (less-priority u v a.0, All-priority u q a.1)

-- A wait on an ordered queue, whatever arrives, takes nothing if there is nothing, and otherwise a
-- ULT whose priority number is the smallest; the rest stays in the queue, in order.
abbrev pub PopsLeast : Queue → Option Ult × Queue → Type 0
PopsLeast q (none, q') = (q ≡ []) × (q' ≡ [])
PopsLeast q (some u, q') = (q ≡ u ∷ q') × All (λ v. priority u ≤ priority v) q' × IsOrdered q'

pub pool_pop-PopsLeast : (q : Queue) → IsOrdered q → PopsLeast q (pool_pop q)
unfolding pool_pop
pool_pop-PopsLeast [] o = (refl, refl)
pool_pop-PopsLeast (u ∷ q) o = (refl, All-priority u q o.0, o.1)

pop_times-append : (n : ℕ) (q : Queue) → (pop_times n q).0 ++ (pop_times n q).1 ≡ q
unfolding pop_times
pop_times-append zero q = refl
pop_times-append (suc n) [] = refl
pop_times-append (suc n) (u ∷ q) = ap (λ r. u ∷ r) (pop_times-append n q)

length-pop_times : (n : ℕ) (q : Queue) → n ≤ length q → length (pop_times n q).0 ≡ n
unfolding pop_times
length-pop_times zero q h = refl
length-pop_times (suc n) [] h = elim h [ ]
length-pop_times (suc n) (u ∷ q) h = omega (arith, length-pop_times n q)

All-append_right {ℓ} : (P : Ult → Type ℓ) (xs ys : List Ult) → All P (xs ++ ys) → All P ys
All-append_right P [] ys a = a
All-append_right P (x ∷ xs) ys a = All-append_right P xs ys a.1

Least : List Ult → Queue → Type 0
Least taken rest = All (λ u. All (λ v. priority u ≤ priority v) rest) taken

split-Least : (taken rest : Queue) → IsOrdered (taken ++ rest) → Least taken rest
unfolding Least
split-Least [] rest o = tt
split-Least (u ∷ us) rest o = (
  All-append_right (λ v. priority u ≤ priority v) us rest (All-priority u (us ++ rest) o.0),
  split-Least us rest o.1,
)

-- Of an ordered queue, `pool_pop_many` takes as many ULTs as are asked for or there are, which
-- with those left make up the queue, and no ULT left has a smaller priority number than one
-- taken.
pub pool_pop_many-least :
    (n : ℕ) (q : Queue)
    → IsOrdered q
    → ((pool_pop_many n q).0 ++ (pool_pop_many n q).1 ≡ q)
      × (length (pool_pop_many n q).0 ≡ min n (length q))
      × All (λ u. All (λ v. priority u ≤ priority v) (pool_pop_many n q).1) (pool_pop_many n q).0
unfolding pool_pop_many Least
pool_pop_many-least n q o =
    let k = min n (length q) in
    (
      pop_times-append k q,
      length-pop_times k q (omega arith),
      split-Least (pop_times k q).0 (pop_times k q).1 (rw (pop_times-append k q) o),
    )
