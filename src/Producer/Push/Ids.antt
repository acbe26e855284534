-- ===== src/Producer/Push/Ids.antt =====
-- Lists of the ids of events, and of the events that entered their queues.
use mofka.Prelude.{
  length, length-append, All, All-append, ℕ, zero, suc, ◌+◌, ◌≤◌, ◌<◌, ◌≡◌, refl, ap, ◌≢◌, true,
  List, [], ◌∷◌, ◌++◌, arith,
}
use mofka.Producer.Push.{contains, remove}
use native.Mathlib.Numerals.{add-one}

pub length-remove :
    (i : ℕ) (js : List ℕ) → contains i js ≡ true → length (remove i js) + 1 ≡ length js
unfolding contains remove
length-remove i [] h = cc
length-remove i (j ∷ js) h = ground (arith, length-remove i js)

pub contains-remove :
    (i k : ℕ) (js : List ℕ) → i ≢ k → contains i js ≡ true → contains i (remove k js) ≡ true
unfolding contains remove
contains-remove i k [] n h = cc
contains-remove i k (j ∷ js) n h = ground (arith, contains-remove i k js n)

pub contains-append : (i : ℕ) (js ks : List ℕ) → contains i js ≡ true → contains i (js ++ ks) ≡ true
unfolding contains
contains-append i [] ks h = cc
contains-append i (j ∷ js) ks h = ground (arith, contains-append i js ks)

pub contains-length : (i : ℕ) (js : List ℕ) → contains i js ≡ true → 0 < length js
unfolding contains
contains-length i [] h = cc
contains-length i (j ∷ js) h = omega arith

-- 0, 1, …, n - 1.
abbrev pub range : ℕ → List ℕ
range zero = []
range (suc n) = range n ++ (n ∷ [])

module _ {T : Type 0} where
  -- Every id is larger than those before it.
  abbrev pub Rises : List (T × ℕ) → Type 0
  Rises [] = Unit {0}
  Rises ((t, i) ∷ es) = All (λ e. i < e.1) es × Rises es

  abbrev pub Below : ℕ → List (T × ℕ) → Type 0
  Below n es = All (λ e. e.1 < n) es

  pub Below-mono : (m n : ℕ) (es : List (T × ℕ)) → m ≤ n → Below m es → Below n es
  Below-mono m n [] h b = tt
  Below-mono m n (e ∷ es) h b = (omega arith, Below-mono m n es h b.1)

  pub Rises-append :
      (t : T) (n : ℕ) (es : List (T × ℕ)) → Rises es → Below n es → Rises (es ++ ((t, n) ∷ []))
  Rises-append t n [] r b = (tt, tt)
  Rises-append t n ((u, i) ∷ es) r b =
      (All-append {A = T × ℕ} (λ e. i < e.1) es _ r.0 (b.0, tt), Rises-append t n es r.1 b.1)

abbrev pub ids : {T : Type 0} → List (T × ℕ) → List ℕ
ids [] = []
ids ((t, i) ∷ es) = i ∷ ids es

pub ids-append :
    {T : Type 0} (t : T) (i : ℕ) (es : List (T × ℕ))
    → ids (es ++ ((t, i) ∷ [])) ≡ ids es ++ (i ∷ [])
ids-append t i [] = refl
ids-append t i ((u, j) ∷ es) = ap (λ r. j ∷ r) (ids-append t i es)

pub length-ids : {T : Type 0} (es : List (T × ℕ)) → length (ids es) ≡ length es
length-ids [] = refl
length-ids ((t, i) ∷ es) = ap suc (length-ids es)

pub length-range : (n : ℕ) → length (range n) ≡ n
length-range zero = refl
length-range (suc n) = omega (arith, length-range n, length-append (range n) (n ∷ []))

pub range-add-one : (n : ℕ) → range (n + 1) ≡ range n ++ (n ∷ [])
range-add-one n = rw add-one
