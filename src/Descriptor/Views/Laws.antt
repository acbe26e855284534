-- ===== src/Descriptor/Views/Laws.antt =====
-- Sizes of sub views and unstructured views, and what `flatten` makes of a sub view.
use mofka.Prelude.{
  All, ltb, ◌==◌, Bool-cases, Bytes, IsU64, sub64, returns, throws, ℕ, ◌+◌, ◌-◌, ◌%◌, ◌^◌, ◌≤◌, ◌<◌,
  min, ◌≡◌, refl, ◌≢◌, inl, inr, false, List, [], ◌∷◌, ◌++◌, arith,
}
use mofka.Descriptor.{DataDescriptor, null, from, sub}
use mofka.Descriptor.Views.{
  make_sub_view, Gathered, gather, gather_all, finish, flatten_sub, flatten_views, flatten,
  make_unstructured_view,
}

-- A sub view of a sub view is as large as the one sub view that takes the same bytes; a request
-- that lies outside gives size 0 on both sides.
pub make_sub_view-make_sub_view :
    (d : DataDescriptor) (a m b n : ℕ)
    → (make_sub_view (make_sub_view d a m) b n).size
      ≡ (make_sub_view d (a + b) (min (m - b) n)).size
unfolding make_sub_view
make_sub_view-make_sub_view d a m b n = ground arith

-- A sub view that is not empty lies within its parent, keeps its location, and has the parent's
-- selections below its own.
pub make_sub_view_within :
    (d : DataDescriptor) (offset n : ℕ)
    → (make_sub_view d offset n).size ≢ 0
    → (offset + (make_sub_view d offset n).size ≤ d.size)
      × ((make_sub_view d offset n).size ≤ n)
      × ((make_sub_view d offset n).location ≡ d.location)
      × ((make_sub_view d offset n).views
          ≡ d.views
            ++ (sub (record { offset = offset; size = (make_sub_view d offset n).size }) ∷ []))
unfolding make_sub_view
make_sub_view_within d offset n h = ground arith

-- `flatten` starts from the size of the view instead of that of the data below it, so of a sub
-- view of `n` bytes at `offset ≤ n`, within data whose size fits into 64 bits, it keeps `n -
-- offset` bytes.
pub flatten-make_sub_view :
    (location : Bytes) (size offset n : ℕ)
    → IsU64 size
    → 0 < n
    → offset ≤ n
    → offset + n ≤ size
    → flatten (make_sub_view (from location size) offset n)
      ≡ returns (record { offset = offset; size = n - offset } ∷ [])
unfolding flatten flatten_views flatten_sub make_sub_view
flatten-make_sub_view location size offset n u p h k = ground arith

-- The segments lie one behind the other, from `start` on, and end within `total`.
abbrev pub InBounds : ℕ → ℕ → List (ℕ × ℕ) → Type 0
InBounds start total [] = start ≤ total
InBounds start total ((o, z) ∷ rest) = (start ≤ o) × InBounds (o + z) total rest

abbrev pub sizes : List (ℕ × ℕ) → ℕ
sizes [] = 0
sizes ((o, z) ∷ rest) = z + sizes rest

InBounds-le :
    (start total : ℕ) (ss : List (ℕ × ℕ)) → InBounds start total ss → start + sizes ss ≤ total
InBounds-le start total [] h = omega arith
InBounds-le start total ((o, z) ∷ rest) h = omega (arith, InBounds-le (o + z) total rest h.1)

abbrev Within : ℕ → List (ℕ × ℕ) → Type 0
Within total us = All {A = ℕ × ℕ} (λ s. s.0 + s.1 ≤ total) us

-- What the loop keeps: the gathered segments have the gathered size, that is at most the offset
-- reached, and none of them passes the end.
abbrev Fits : ℕ → Gathered → Type 0
Fits total g =
    (sizes g.segments ≡ g.view_size) × (g.view_size ≤ g.current_offset) × Within total g.segments

gather-Fits :
    (total : ℕ) (us : List (ℕ × ℕ)) (o z : ℕ)
    → o + z ≤ total
    → IsU64 total
    → sizes us + z < 2 ^ 64
    → Within total us
    → (sizes (gather us o z) ≡ sizes us + z) × Within total (gather us o z)
unfolding gather
gather-Fits total [] o z h u k w = ground arith
gather-Fits total ((o', z') ∷ us) o z h u k w = ground arith

gather_all-Fits :
    (total : ℕ) (ss : List (ℕ × ℕ)) (g : Gathered)
    → IsU64 total
    → InBounds g.current_offset total ss
    → Fits total g
    → (g' : Gathered) × (gather_all total ss g ≡ returns g')
      × (g'.view_size ≡ g.view_size + sizes ss)
      × (sizes g'.segments ≡ g'.view_size)
      × Within total g'.segments
unfolding gather_all
gather_all-Fits total [] g u h f = (g, refl, omega arith, f.0, f.2)
gather_all-Fits total ((o, z) ∷ rest) g u h f =
    let left = InBounds-le (o + z) total rest h.1 in
    let size : min z (sub64 total g.current_offset) ≡ z = omega arith in
    let (sized, within) = gather-Fits total g.segments o z (omega arith) u (omega arith) f.2 in
    let g' : Gathered = record {
      segments = gather g.segments o z;
      view_size = (g.view_size + z) % 2 ^ 64;
      current_offset = (o + z) % 2 ^ 64;
    } in
    let reached : (o + z) % 2 ^ 64 ≡ o + z = omega arith in
    let (r, runs, total_size, gathered, fits) =
      gather_all-Fits total rest g' u (rw reached h.1) (omega arith, omega arith, within) in
    elim (Bool-cases ((o + z) % 2 ^ 64 == total)) [
      | inl done ↦ (g', rw size (ground arith), ground arith, omega arith, within)
      | inr more ↦ (r, rw size (ground arith), omega arith, gathered, fits)
    ]

finish-size :
    (d : DataDescriptor) (g : Gathered) (us : List (ℕ × ℕ))
    → g.segments ≡ us
    → sizes us ≡ g.view_size
    → Within d.size us
    → (finish d g).size ≡ g.view_size
unfolding finish make_sub_view
finish-size d g [] q e h = rw (q, finish) e
finish-size d g ((o, z) ∷ []) q e h = rw (q, finish) (ground arith)
finish-size d g ((o, z) ∷ y ∷ us) q e h = rw (q, finish)

-- For segments in order, apart, and within data whose size fits into 64 bits, the call returns
-- a descriptor whose size is the sum of theirs.
pub make_unstructured_view-size :
    (d : DataDescriptor) (segments : List (ℕ × ℕ))
    → IsU64 d.size
    → InBounds 0 d.size segments
    → (r : DataDescriptor) × (make_unstructured_view d segments ≡ returns r)
      × (r.size ≡ sizes segments)
unfolding make_unstructured_view
make_unstructured_view-size d [] u h = (null, refl, refl)
make_unstructured_view-size d ((o, z) ∷ rest) u h =
    let start : Gathered = record { segments = []; view_size = 0; current_offset = 0 } in
    let (g, runs, total, sized, within) =
      gather_all-Fits d.size ((o, z) ∷ rest) start u h (refl, omega arith, tt) in
    let left = InBounds-le (o + z) d.size rest h.1 in
    let inside : ltb d.size o ≡ false = ground arith in
    let size = finish-size d g g.segments refl sized within in
    (finish d g, rw (inside, runs), omega arith)

-- Of two segments with a gap between them, within data whose size fits into 64 bits, the result
-- has their size, but the selections of `d` only: nothing in it says which bytes are meant.
pub make_unstructured_view_unrecorded :
    (d : DataDescriptor) (o₁ z₁ o₂ z₂ : ℕ)
    → IsU64 d.size
    → o₁ + z₁ < o₂
    → o₂ + z₂ ≤ d.size
    → make_unstructured_view d ((o₁, z₁) ∷ (o₂, z₂) ∷ []) ≡ returns (record d { size = z₁ + z₂ })
unfolding make_unstructured_view gather_all gather finish
make_unstructured_view_unrecorded d o₁ z₁ o₂ z₂ u h k = ground arith

-- A segment that starts before the end of the one before it is refused, if that one ends within
-- the data and not at its end.
pub make_unstructured_view_overlap :
    (d : DataDescriptor) (o₁ z₁ o₂ z₂ : ℕ) (rest : List (ℕ × ℕ))
    → IsU64 d.size
    → o₁ < o₂
    → o₂ < o₁ + z₁
    → o₁ + z₁ < d.size
    → make_unstructured_view d ((o₁, z₁) ∷ (o₂, z₂) ∷ rest)
      ≡ throws "Invalid unstructured view: overlapping segments"
unfolding make_unstructured_view gather_all gather
make_unstructured_view_overlap d o₁ z₁ o₂ z₂ rest u h k l = ground arith
