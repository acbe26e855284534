-- ===== src/Consumer/Receive/Rounds/Ranges.antt =====
-- The parts of a log that a consumer receives.
use mofka.TopicManager.Slices.{slices-append}
use mofka.Consumer.Receive.{Arrival}
use mofka.Consumer.Receive.Delivery.{numbered}
use mofka.Prelude.{
  length, take, drop, length-take, length-drop, All, lengths, Bytes, IsU64, ℕ, zero, suc, ◌+◌, ◌%◌,
  ◌^◌, ◌≤◌, ◌<◌, ◌≡◌, refl, sym, ap, ◌∙◌, List, [], ◌∷◌, ◌++◌, arith,
}

pub numbered-append :
    (id : ℕ) (ms ns ds es : List Bytes)
    → length ms ≡ length ds
    → id + length ms < 2 ^ 64
    → numbered id (ms ++ ns) (ds ++ es) ≡ numbered id ms ds ++ numbered (id + length ms) ns es
numbered-append id [] ns [] es e h = let z : id + 0 ≡ id = omega arith in rw z refl
numbered-append id [] ns (d ∷ ds) es e h = absurd (omega arith)
numbered-append id (m ∷ ms) ns [] es e h = absurd (omega arith)
numbered-append id (m ∷ ms) ns (d ∷ ds) es e h =
    let next : (id + 1) % 2 ^ 64 ≡ id + 1 = omega arith in
    let end : id + suc (length ms) ≡ id + 1 + length ms = omega arith in
    rw (next, end)
      (ap (λ r. record { event_id = id; metadata = m; descriptor = d } ∷ r)
        (numbered-append (id + 1) ms ns ds es (omega arith) (omega arith)))

pub small_slice :
    (n i : ℕ) (xs : List Bytes) → All IsU64 (lengths xs) → All IsU64 (lengths (take n (drop i xs)))
small_slice zero i xs h = tt
small_slice (suc n) zero [] h = tt
small_slice (suc n) zero (x ∷ xs) h = (h.0, small_slice n zero xs h.1)
small_slice (suc n) (suc i) [] h = tt
small_slice (suc n) (suc i) (x ∷ xs) h = small_slice (suc n) i xs h.1

module _ (ms descs : List Bytes) where
  -- The part of the log that is received from a position on.
  abbrev pub part : (first_id n : ℕ) → List Arrival
  part first_id n = numbered first_id (take n (drop first_id ms)) (take n (drop first_id descs))

  pub part-append :
      (first_id n m : ℕ)
      → length ms ≡ length descs
      → IsU64 (length ms)
      → first_id + n ≤ length ms
      → part first_id n ++ part (first_id + n) m ≡ part first_id (n + m)
  part-append first_id n m e u h =
      let xs = take n (drop first_id ms) in
      let ds = take n (drop first_id descs) in
      let count : length xs ≡ n =
        omega (arith, length-take n (drop first_id ms), length-drop first_id ms) in
      let same : length xs ≡ length ds =
        omega (arith, count, length-take n (drop first_id descs), length-drop first_id descs) in
      rw (slices-append n m first_id ms, slices-append n m first_id descs)
        (sym (
          numbered-append first_id xs (take m (drop (first_id + n) ms)) ds
            (take m (drop (first_id + n) descs)) same (omega (arith, count))
          ∙ ap
              (λ k.
                part first_id n
                ++ numbered (first_id + k) (take m (drop (first_id + n) ms))
                    (take m (drop (first_id + n) descs)))
              count))
