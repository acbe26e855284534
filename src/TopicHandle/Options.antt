-- ===== src/TopicHandle/Options.antt =====
-- In which order the options of a producer and a consumer may be given.
use mofka.TopicHandle.{Expected, get_arg_or_default}
use mofka.Prelude.{
  Option-cases, ℕ, ◌+◌, ◌≤◌, ◌≡◌, refl, sym, ap, ap₂, ◌∙◌, inl, inr, Option, none, some, List, [],
  ◌∷◌, ◌++◌, arith,
}
use mathlib.Core.List.{Permᴰ}

two : 1 + 1 ≤ 1 → ⊥
two h = omega arith

module _ {E : Type 0} where
  hit : Option E → ℕ
  hit none = 0
  hit (some v) = 1

  or : Option E → E → E
  or none exp = exp
  or (some v) exp = v

  or_comm : (u v : Option E) (exp : E) → hit u + hit v ≤ 1 → or u (or v exp) ≡ or v (or u exp)
  unfolding or hit
  or_comm none v exp h = refl
  or_comm (some x) none exp h = refl
  or_comm (some x) (some y) exp h = elim (two h) [ ]

-- How many of the arguments have the type that is expected.
unfoldable pub occurrences : {A E : Type 0} → Expected A E → List A → ℕ
unfolding hit
occurrences e [] = 0
occurrences e (arg ∷ args) = hit (e.same arg) + occurrences e args

module _ {A E : Type 0} (e : Expected A E) (no_references : (a : A) → e.refer a ≡ none) where
  -- The search behind the first argument.
  pub behind : E → List A → E
  unfolding get_arg_or_default
  behind exp args = get_arg_or_default e e.refer exp args

  behind-cons :
      (exp : E) (a : A) (args : List A) → behind exp (a ∷ args) ≡ or (e.same a) (behind exp args)
  unfolding behind get_arg_or_default or
  behind-cons exp a args = elim (Option-cases (e.same a)) [
    | inl other ↦ rw (other, no_references a, get_arg_or_default) refl
    | inr (v, found) ↦ rw (found, get_arg_or_default) refl
  ]

  occurrences-Perm : (xs ys : List A) → Permᴰ xs ys → occurrences e xs ≡ occurrences e ys
  unfolding occurrences hit
  occurrences-Perm _ _ Permᴰ.nil = refl
  occurrences-Perm _ _ (Permᴰ.cons {a} {b} {l₁} {l₂} h p) =
      ap₂ (λ c n. hit (e.same c) + n) h (occurrences-Perm l₁ l₂ p)
  occurrences-Perm _ _ (Permᴰ.swap {a = a} {b = b} {a' = c} {b' = d} {l = l} h k) =
      let same_a : hit (e.same a) ≡ hit (e.same d) = ap (λ x. hit (e.same x)) h in
      let same_b : hit (e.same b) ≡ hit (e.same c) = ap (λ x. hit (e.same x)) k in omega arith
  occurrences-Perm _ _ (Permᴰ.trans {l₁} {l₂} {l₃} p q) =
      occurrences-Perm l₁ l₂ p ∙ occurrences-Perm l₂ l₃ q

  pub behind-Perm :
      (exp : E) (xs ys : List A)
      → Permᴰ xs ys
      → occurrences e xs ≤ 1
      → behind exp xs ≡ behind exp ys
  unfolding occurrences
  behind-Perm exp _ _ Permᴰ.nil once = refl
  behind-Perm exp _ _ (Permᴰ.cons {a} {b} {l₁} {l₂} h p) once =
      behind-cons exp a l₁
      ∙ ap₂ (λ c r. or (e.same c) r) h (behind-Perm exp l₁ l₂ p (omega arith))
      ∙ sym (behind-cons exp b l₂)
  behind-Perm exp _ _ (Permᴰ.swap {a = a} {b = b} {a' = c} {b' = d} {l = l} h k) once =
      behind-cons exp a (b ∷ l)
      ∙ ap (λ r. or (e.same a) r) (behind-cons exp b l)
      ∙ or_comm (e.same a) (e.same b) (behind exp l) (omega arith)
      ∙ ap₂ (λ x y. or (e.same x) (or (e.same y) (behind exp l))) k h
      ∙ ap (λ r. or (e.same c) r) (sym (behind-cons exp d l))
      ∙ sym (behind-cons exp c (d ∷ l))
  behind-Perm exp _ _ (Permᴰ.trans {l₁} {l₂} {l₃} p q) once =
      behind-Perm exp l₁ l₂ p once
      ∙ behind-Perm exp l₂ l₃ q (omega (arith, occurrences-Perm l₁ l₂ p))

  pub behind_other :
      (exp : E) (a : A) (xs ys : List A)
      → e.same a ≡ none
      → behind exp (xs ++ (a ∷ ys)) ≡ behind exp (xs ++ ys)
  unfolding behind or
  behind_other exp a [] ys h = behind-cons exp a ys ∙ ap (λ o. or o (behind exp ys)) h
  behind_other exp a (x ∷ xs) ys h =
      behind-cons exp x (xs ++ (a ∷ ys))
      ∙ ap (λ r. or (e.same x) r) (behind_other exp a xs ys h)
      ∙ sym (behind-cons exp x (xs ++ ys))

  -- What follows the first argument matters only by what is found behind it.
  pub first_or_behind :
      (exp : E) (a : A) (xs ys : List A)
      → behind exp xs ≡ behind exp ys
      → get_arg_or_default e e.construct exp (a ∷ xs)
        ≡ get_arg_or_default e e.construct exp (a ∷ ys)
  unfolding behind get_arg_or_default
  first_or_behind exp a xs ys h = elim (Option-cases (e.same a)) [
    | inl other ↦ elim (Option-cases (e.construct a)) [
      | inl none_made ↦ rw (other, none_made, get_arg_or_default) h
      | inr (v, made) ↦ rw (other, made, get_arg_or_default) refl
    ]
    | inr (v, found) ↦ rw (found, get_arg_or_default) refl
  ]
