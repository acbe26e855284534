-- ===== src/Selector/Rotation.antt =====
-- The order in which targets are selected.
use mofka.Prelude.{
  length, get_elem?, get_elem?-some, leb, ◌==◌, if◌then◌else◌, Bool-cases, returns, ℕ, zero, suc,
  ◌+◌, ◌-◌, ◌%◌, ◌<◌, ◌≡◌, refl, sym, ap, ap₂, ◌∙◌, inl, inr, false, Option, some, List, [], ◌∷◌,
  map, arith,
}
use native.Mathlib.Nat.{mod-add-mod, mod-eq_of_lt}
use mofka.Selector.{DefaultTargetSelector, select_target_for, select_many}

mod-step : (i j n : ℕ) → i % n ≡ j % n → (i + 1) % n ≡ (j + 1) % n
mod-step i j n e = sym (mod-add-mod i n 1) ∙ ap (λ x. (x + 1) % n) e ∙ mod-add-mod j n 1

wrapped_index : (i n : ℕ) → (if leb n i then i % n else i) ≡ i % n
wrapped_index i n = elim (Bool-cases (leb n i)) [
  | inl big ↦ rw big
  | inr small ↦ rw small (sym (mod-eq_of_lt (ground arith)))
]

module _ {ℓ} {T : Type ℓ} where
  -- A selection takes the target at the index, counted around, whatever the index was before; it
  -- fails on no target only, and leaves an index between 1 and the number of targets.
  pub select_target_for-get_elem? :
      (s : DefaultTargetSelector T)
      → 0 < length s.targets
      → (t : T) × (s' : DefaultTargetSelector T) × (select_target_for s ≡ returns (t, s'))
        × (get_elem? s.targets (s.index % length s.targets) ≡ some t)
        × (s'.index ≡ s.index % length s.targets + 1)
        × (s'.targets ≡ s.targets)
  unfolding select_target_for
  select_target_for-get_elem? s h =
      let n_pos : (length s.targets == 0) ≡ false = ground arith in
      let i : ℕ = s.index % length s.targets in
      let (t, found) = get_elem?-some s.targets i (omega arith) in
      let index : (if leb (length s.targets) s.index then s.index % length s.targets else s.index)
          ≡ i =
        wrapped_index s.index (length s.targets) in
      let back : i + 1 - 1 ≡ i = omega arith in
      (
        t,
        record s { index = i + 1 },
        rw (index, back) (ground (arith, found, n_pos)),
        found,
        refl,
        refl,
      )

  -- The targets of the list, `k` of them from the place `i` on, around the end.
  abbrev pub rotation : List T → ℕ → ℕ → List (Option T)
  rotation ts i zero = []
  rotation ts i (suc k) = get_elem? ts (i % length ts) ∷ rotation ts (i + 1) k

  rotation-mod :
      (ts : List T) (i j k : ℕ) → i % length ts ≡ j % length ts → rotation ts i k ≡ rotation ts j k
  rotation-mod ts i j zero e = refl
  rotation-mod ts i j (suc k) e =
      rw (e, rotation-mod ts (i + 1) (j + 1) k (mod-step i j (length ts) e))

  -- `k` selections from a selector with targets all succeed, and give the targets in turn, around
  -- the end, from the selector's index on.
  pub select_many-rotation :
      (k : ℕ) (s : DefaultTargetSelector T)
      → 0 < length s.targets
      → (ts : List T) × (s' : DefaultTargetSelector T) × (select_many k s ≡ returns (ts, s'))
        × (map some ts ≡ rotation s.targets s.index k)
        × (s'.targets ≡ s.targets)
  unfolding select_many
  select_many-rotation zero s h = ([], s, refl, refl, refl)
  select_many-rotation (suc k) s h =
      let (t, s₁, one, found, index, same) = select_target_for-get_elem? s h in
      let (ts, s₂, many, turn, kept) = select_many-rotation k s₁ (rw same h) in
      (
        t ∷ ts,
        s₂,
        rw (one, many),
        ap₂ (λ x xs. x ∷ xs) (sym found)
            (turn
              ∙ ap (λ l. rotation l s₁.index k) same
              ∙ ap (λ i. rotation s.targets i k) index
              ∙ rotation-mod s.targets _ (s.index + 1) k
                  (mod-add-mod s.index (length s.targets) 1)),
        kept ∙ same,
      )
