-- ===== src/Descriptor/Views.antt =====
-- The views of src/DataDescriptor.cpp, and `flatten` of src/DataDescriptorImpl.hpp. Arithmetic is
-- that of a 64-bit `size_t`. A map is the list of its entries in the order of their keys.
pub mod Laws
pub mod Strides
use mofka.Prelude.{
  Outcome, ◌>>=◌, ltb, leb, ◌==◌, if◌then◌else◌, sub64, returns, throws, ℕ, ◌+◌, ◌-◌, ◌*◌, ◌/◌, ◌%◌,
  ◌^◌, min, ◌||◌, Option, none, some, List, [], ◌∷◌, ◌++◌,
}
use mofka.Descriptor.{Sub, Selection, sub, strided, unstructured, DataDescriptor, null}

-- DataDescriptor::makeSubView.
unfoldable pub make_sub_view : DataDescriptor → ℕ → ℕ → DataDescriptor
make_sub_view d offset size =
    if ltb d.size offset || (size == 0 || d.size == 0)
    then null
    else let size' = min (d.size - offset) size in
      record d {
        views = d.views ++ (sub (record { offset = offset; size = size' }) ∷ []);
        size = size';
      }

-- The size that DataDescriptor::makeStridedView gives to the view: `sub_size` bytes, in blocks that
-- start `s` apart, of which `numblocks` are taken.
strided_size : (sub_size s numblocks blocksize : ℕ) → ℕ
strided_size sub_size s numblocks blocksize =
    let num_full_blocks = sub_size / s in
    let remaining = sub64 numblocks num_full_blocks * s % 2 ^ 64 in
    if ltb s remaining
    then (num_full_blocks + 1) * blocksize % 2 ^ 64
    else (num_full_blocks * blocksize + remaining) % 2 ^ 64

-- DataDescriptor::makeStridedView, where `ceil_quotient a b` is `std::ceil((double)a/(double)b)`.
-- `none` is the division by zero that is reached where `blocksize + gapsize` wraps to 0.
pub make_strided_view :
    (ℕ → ℕ → ℕ) → DataDescriptor → (offset numblocks blocksize gapsize : ℕ) → Option DataDescriptor
make_strided_view ceil_quotient d offset numblocks blocksize gapsize =
    if ltb d.size offset || (numblocks == 0 || blocksize == 0)
    then some null
    else let sub_size = d.size - offset in
      let s = (blocksize + gapsize) % 2 ^ 64 in
      let blocks = min numblocks (ceil_quotient sub_size s) in
      let view = strided (record {
        offset = offset;
        numblocks = blocks;
        blocksize = blocksize;
        gapsize = gapsize;
      }) in
      if s == 0
      then none
      else some (record d {
        views = d.views ++ (view ∷ []);
        size = strided_size sub_size s blocks blocksize;
      })

-- What the loop of makeUnstructuredView has gathered: the segments (newest first), their size, and
-- the end of the last one.
pub record Gathered : Type 0 where
  pub segments : List (ℕ × ℕ)
  pub view_size : ℕ
  pub current_offset : ℕ

-- A segment that starts where the last one ends makes that longer.
gather : List (ℕ × ℕ) → ℕ → ℕ → List (ℕ × ℕ)
gather [] offset s = (offset, s) ∷ []
gather ((o, z) ∷ us) offset s =
    if (o + z) % 2 ^ 64 == offset then (o, (z + s) % 2 ^ 64) ∷ us else (offset, s) ∷ (o, z) ∷ us

gather_all : (total : ℕ) → List (ℕ × ℕ) → Gathered → Outcome Gathered
unfolding gather
gather_all total [] g = returns g
gather_all total ((offset, size) ∷ rest) g =
    let s = min size (sub64 total g.current_offset) in
    let g' : Gathered = record {
      segments = gather g.segments offset s;
      view_size = (g.view_size + s) % 2 ^ 64;
      current_offset = (offset + s) % 2 ^ 64;
    } in
    let more = gather_all total rest g' in
    if ltb offset g.current_offset
    then throws "Invalid unstructured view: overlapping segments"
    else if g'.current_offset == total
    then returns g'
    else more

-- After the loop: no segment, one segment, or more.
finish : DataDescriptor → Gathered → DataDescriptor
unfolding make_sub_view
finish d g = elim g.segments [
  | [] ↦ null
  | (offset, size) ∷ [] ↦ make_sub_view d offset size
  | _ ↦ record d { size = g.view_size }
]

-- DataDescriptor::makeUnstructuredView.
pub make_unstructured_view : DataDescriptor → List (ℕ × ℕ) → Outcome DataDescriptor
unfolding finish gather_all
make_unstructured_view d [] = returns null
make_unstructured_view d ((offset, size) ∷ rest) = if ltb d.size offset then returns null else (do
  g ←
      gather_all d.size ((offset, size) ∷ rest)
        (record { segments = []; view_size = 0; current_offset = 0 })
  returns (finish d g))

abbrev add64 : ℕ → ℕ → ℕ
add64 a b = (a + b) % 2 ^ 64

-- The visitor of `flatten` for a `Sub`.
flatten_sub : Sub → List Sub → (size_read remaining_size : ℕ) → List Sub
flatten_sub v [] size_read remaining = []
flatten_sub v (s ∷ ss) size_read remaining =
    let offset =
      if ltb size_read v.offset then sub64 (add64 s.offset v.offset) size_read else s.offset in
    let available = sub64 s.size (sub64 offset s.offset) in
    let size = if ltb remaining available then remaining else available in
    let skip = flatten_sub v ss (add64 size_read s.size) remaining in
    let take_it =
      record { offset = offset; size = size }
      ∷ flatten_sub v ss (add64 size_read s.size) (sub64 remaining size) in
    if leb (add64 v.offset v.size) size_read
    then []
    else if ltb (add64 size_read s.size) s.offset
    then skip
    else take_it

flatten_views : List Selection → List Sub → Outcome (List Sub)
unfolding flatten_sub
flatten_views [] current = returns current
flatten_views (sub v ∷ vs) current = flatten_views vs (flatten_sub v current 0 v.size)
flatten_views (strided v ∷ vs) current = throws "\"Strided\" descriptor type not yet supported"
flatten_views (unstructured v ∷ vs) current =
    throws "\"Unstructured\" descriptor type not yet supported"

-- DataDescriptorImpl::flatten.
pub flatten : DataDescriptor → Outcome (List Sub)
unfolding flatten_views
flatten d = flatten_views d.views (record { offset = 0; size = d.size } ∷ [])
