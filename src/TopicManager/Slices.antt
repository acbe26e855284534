-- ===== src/TopicManager/Slices.antt =====
-- The part of the concatenation of entries that holds some of them, found by the offsets and sizes.
use mofka.Prelude.{
  length, get_or, take, drop, sum, concat, lengths, ℕ, zero, suc, ◌+◌, ◌≤◌, ◌<◌, ◌≡◌, refl, ap, ◌∙◌,
  List, [], ◌∷◌, ◌++◌, arith,
}
use mofka.TopicManager.{offsets_from}

module _ {ℓ} {A : Type ℓ} where
  drop-append_more : (xs ys : List A) (m : ℕ) → drop (length xs + m) (xs ++ ys) ≡ drop m ys
  drop-append_more [] ys m = let e : 0 + m ≡ m = omega arith in rw e
  drop-append_more (x ∷ xs) ys m =
      let e : suc (length xs) + m ≡ suc (length xs + m) = omega arith in
      rw e (drop-append_more xs ys m)

  take-append_more : (xs ys : List A) (m : ℕ) → take (length xs + m) (xs ++ ys) ≡ xs ++ take m ys
  take-append_more [] ys m = let e : 0 + m ≡ m = omega arith in rw e
  take-append_more (x ∷ xs) ys m =
      let e : suc (length xs) + m ≡ suc (length xs + m) = omega arith in
      rw e (ap (λ r. x ∷ r) (take-append_more xs ys m))

  pub lengths-take : (n : ℕ) (xs : List (List A)) → lengths (take n xs) ≡ take n (lengths xs)
  lengths-take zero xs = refl
  lengths-take (suc n) [] = refl
  lengths-take (suc n) (x ∷ xs) = ap (λ r. length x ∷ r) (lengths-take n xs)

  pub lengths-drop : (n : ℕ) (xs : List (List A)) → lengths (drop n xs) ≡ drop n (lengths xs)
  lengths-drop zero xs = refl
  lengths-drop (suc n) [] = refl
  lengths-drop (suc n) (x ∷ xs) = lengths-drop n xs

  drop-concat :
      (k : ℕ) (xs : List (List A))
      → drop (sum (take k (lengths xs))) (concat xs) ≡ concat (drop k xs)
  drop-concat zero xs = refl
  drop-concat (suc k) [] = refl
  drop-concat (suc k) (x ∷ xs) =
      drop-append_more x (concat xs) (sum (take k (lengths xs))) ∙ drop-concat k xs

  take-concat :
      (n : ℕ) (xs : List (List A))
      → take (sum (take n (lengths xs))) (concat xs) ≡ concat (take n xs)
  take-concat zero xs = refl
  take-concat (suc n) [] = refl
  take-concat (suc n) (x ∷ xs) =
      take-append_more x (concat xs) (sum (take n (lengths xs)))
      ∙ ap (λ r. x ++ r) (take-concat n xs)

get_or-offsets_from :
    (offset k : ℕ) (ss : List ℕ)
    → k < length ss
    → get_or (offsets_from offset ss) k 0 ≡ offset + sum (take k ss)
unfolding offsets_from
get_or-offsets_from offset k [] h = elim h [ ]
get_or-offsets_from offset zero (s ∷ ss) h = omega arith
get_or-offsets_from offset (suc k) (s ∷ ss) h =
    omega (arith, get_or-offsets_from (offset + s) k ss (omega arith))

-- Entries `k` up to `k + n` lie at the offset of entry `k`, and take the sum of their sizes.
pub slice_lem {ℓ} :
    {A : Type ℓ} (n k : ℕ) (xs : List (List A))
    → k < length (lengths xs)
    → take
        (sum (take n (drop k (lengths xs))))
        (drop (get_or (offsets_from 0 (lengths xs)) k 0) (concat xs))
      ≡ concat (take n (drop k xs))
slice_lem n k xs h =
    let start : get_or (offsets_from 0 (lengths xs)) k 0 ≡ sum (take k (lengths xs)) =
      get_or-offsets_from 0 k (lengths xs) h ∙ omega arith in
    rw (start, drop-concat k xs, ← lengths-drop k xs) (take-concat n (drop k xs))

module _ {A : Type 0} where
  pub take-drop-take :
      (n i k : ℕ) (xs : List A) → i + n ≤ k → take n (drop i (take k xs)) ≡ take n (drop i xs)
  take-drop-take zero i k xs h = refl
  take-drop-take (suc n) zero zero xs h = absurd (omega arith)
  take-drop-take (suc n) zero (suc k) [] h = refl
  take-drop-take (suc n) zero (suc k) (x ∷ xs) h =
      ap (λ r. x ∷ r) (take-drop-take n zero k xs (omega arith))
  take-drop-take (suc n) (suc i) zero xs h = absurd (omega arith)
  take-drop-take (suc n) (suc i) (suc k) [] h = refl
  take-drop-take (suc n) (suc i) (suc k) (x ∷ xs) h = take-drop-take (suc n) i k xs (omega arith)

  take-add : (n m : ℕ) (xs : List A) → take (n + m) xs ≡ take n xs ++ take m (drop n xs)
  take-add zero m xs = let e : 0 + m ≡ m = omega arith in rw e refl
  take-add (suc n) zero [] = let e : suc n + 0 ≡ suc n = omega arith in rw e refl
  take-add (suc n) (suc m) [] = let e : suc n + suc m ≡ suc (n + suc m) = omega arith in rw e refl
  take-add (suc n) m (x ∷ xs) =
      let e : suc n + m ≡ suc (n + m) = omega arith in rw e (ap (λ r. x ∷ r) (take-add n m xs))

  drop-drop : (n i : ℕ) (xs : List A) → drop n (drop i xs) ≡ drop (i + n) xs
  drop-drop n zero xs = let e : 0 + n ≡ n = omega arith in rw e refl
  drop-drop zero (suc i) [] = let e : suc i + 0 ≡ suc i = omega arith in rw e refl
  drop-drop (suc n) (suc i) [] = let e : suc i + suc n ≡ suc (i + suc n) = omega arith in rw e refl
  drop-drop n (suc i) (x ∷ xs) =
      let e : suc i + n ≡ suc (i + n) = omega arith in rw e (drop-drop n i xs)

  pub slices-append :
      (n m i : ℕ) (xs : List A)
      → take (n + m) (drop i xs) ≡ take n (drop i xs) ++ take m (drop (i + n) xs)
  slices-append n m i xs =
      take-add n m (drop i xs) ∙ ap (λ r. take n (drop i xs) ++ take m r) (drop-drop n i xs)
