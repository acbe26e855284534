-- ===== src/Descriptor/Encoding.antt =====
-- `load` reads back what `save` wrote.
use mofka.Prelude.{
  length, length-append, take-append_eq, drop-append_eq, All, Bytes, IsU64, word, encode_u64,
  length-encode_u64, decode_u64-encode_u64, returns, ℕ, ◌+◌, ◌*◌, ◌%◌, ◌^◌, ◌<◌, ◌≡◌, refl, sym,
  List, [], ◌∷◌, ◌++◌, append-nil, append_assoc, arith,
}
use mofka.Archive.Laws.{read-append, read-append_eq, read_u64-encode}
use mofka.Descriptor.{
  Selection, sub, strided, unstructured, DataDescriptor, save, load, save_selection, save_views,
  load_selection, load_views, encode_pairs, decode_pairs, first, from,
}

-- Every number of a selection is a `size_t`, and a vector's bytes can be counted by one.
abbrev pub IsSelection : Selection → Type 0
IsSelection (sub s) = IsU64 s.offset × IsU64 s.size
IsSelection (strided s) = IsU64 s.offset × IsU64 s.numblocks × IsU64 s.blocksize × IsU64 s.gapsize
IsSelection (unstructured ps) = (length ps * 16 < 2 ^ 64) × All (λ p. IsU64 p.0 × IsU64 p.1) ps

pub record IsDescriptor (d : DataDescriptor) : Type 0 where
  pub sized : IsU64 d.size
  pub located : IsU64 (length d.location)
  pub counted : IsU64 (length d.views)
  pub selections : All IsSelection d.views

-- The bytes of a selection and of a descriptor.
image : Selection → Bytes
image (sub s) = 0 ∷ encode_u64 s.offset ++ encode_u64 s.size
image (strided s) =
    1
    ∷ (encode_u64 s.offset
        ++ (encode_u64 s.numblocks ++ (encode_u64 s.blocksize ++ encode_u64 s.gapsize)))
image (unstructured ps) = 2 ∷ (encode_u64 (length ps) ++ encode_pairs ps)

images : List Selection → Bytes
images [] = []
images (v ∷ vs) = image v ++ images vs

save_selection-image : (ar : Bytes) (v : Selection) → save_selection ar v ≡ ar ++ image v
unfolding save_selection image
save_selection-image ar (sub s) = simp append_assoc
save_selection-image ar (strided s) = simp append_assoc
save_selection-image ar (unstructured ps) = simp append_assoc

save_views-images : (ar : Bytes) (vs : List Selection) → save_views ar vs ≡ ar ++ images vs
unfolding save_views images
save_views-images ar [] = sym (append-nil ar)
save_views-images ar (v ∷ vs) =
    rw (save_views-images (save_selection ar v) vs, save_selection-image ar v)
      (append_assoc ar (image v) (images vs))

-- The bytes of a whole descriptor, in the order of the writes.
descriptor_image : DataDescriptor → Bytes
descriptor_image d =
    encode_u64 d.size
    ++ (encode_u64 (length d.location)
        ++ (d.location ++ (encode_u64 (length d.views) ++ images d.views)))

-- `save` appends.
pub save-append : (ar : Bytes) (d : DataDescriptor) → save ar d ≡ ar ++ save [] d
unfolding save
save-append ar d =
    rw (save_views-images _ d.views, save_views-images (_ ++ encode_u64 (length d.views)) d.views)
      (simp append_assoc)

save-image : (d : DataDescriptor) → save [] d ≡ descriptor_image d
unfolding save descriptor_image
save-image d = rw (save_views-images _ d.views) (simp append_assoc)

decode_pairs-encode :
    (ps : List (ℕ × ℕ))
    → All (λ p. IsU64 p.0 × IsU64 p.1) ps
    → decode_pairs (length ps) (encode_pairs ps) ≡ ps
unfolding decode_pairs encode_pairs
decode_pairs-encode [] h = refl
decode_pairs-encode ((a, b) ∷ ps) h = rw (
  take-append_eq word (encode_u64 a) (encode_u64 b ++ encode_pairs ps) (sym (length-encode_u64 a)),
  drop-append_eq word (encode_u64 a) (encode_u64 b ++ encode_pairs ps) (sym (length-encode_u64 a)),
  take-append_eq word (encode_u64 b) (encode_pairs ps) (sym (length-encode_u64 b)),
  drop-append_eq word (encode_u64 b) (encode_pairs ps) (sym (length-encode_u64 b)),
  decode_u64-encode_u64 a h.0.0,
  decode_u64-encode_u64 b h.0.1,
  decode_pairs-encode ps h.1,
)

length-encode_pairs : (ps : List (ℕ × ℕ)) → length (encode_pairs ps) ≡ length ps * 16
unfolding encode_pairs
length-encode_pairs [] = refl
length-encode_pairs ((a, b) ∷ ps) = omega (
  arith,
  length-append (encode_u64 a) (encode_u64 b ++ encode_pairs ps),
  length-append (encode_u64 b) (encode_pairs ps),
  length-encode_u64 a,
  length-encode_u64 b,
  length-encode_pairs ps,
)

-- What follows the tag of a selection, and the tag.
payload : Selection → Bytes
payload (sub s) = encode_u64 s.offset ++ encode_u64 s.size
payload (strided s) =
    encode_u64 s.offset
    ++ (encode_u64 s.numblocks ++ (encode_u64 s.blocksize ++ encode_u64 s.gapsize))
payload (unstructured ps) = encode_u64 (length ps) ++ encode_pairs ps

tag_of : Selection → ℕ
tag_of (sub s) = 0
tag_of (strided s) = 1
tag_of (unstructured ps) = 2

load_selection-payload :
    (v : Selection) (rest : Bytes)
    → IsSelection v
    → load_selection (tag_of v) (payload v ++ rest) ≡ returns (v ∷ [], rest)
unfolding load_selection payload tag_of
load_selection-payload (sub s) rest h = rw (
  append_assoc (encode_u64 s.offset) (encode_u64 s.size) rest,
  read_u64-encode s.offset (encode_u64 s.size ++ rest) h.0,
  read_u64-encode s.size rest h.1,
)
load_selection-payload (strided s) rest h = simp append_assoc (
    rw (
      read_u64-encode s.offset _ h.0,
      read_u64-encode s.numblocks _ h.1,
      read_u64-encode s.blocksize _ h.2,
      read_u64-encode s.gapsize _ h.3,
    ))
load_selection-payload (unstructured ps) rest h = simp append_assoc (
    rw (
      read_u64-encode (length ps) (encode_pairs ps ++ rest) (omega arith),
      read-append_eq (length ps * 16 % 2 ^ 64) (encode_pairs ps) rest
          (omega (arith, length-encode_pairs ps)),
      decode_pairs-encode ps h.1,
    ))

image-payload : (v : Selection) → image v ≡ tag_of v ∷ payload v
unfolding image payload tag_of
image-payload (sub s) = refl
image-payload (strided s) = refl
image-payload (unstructured ps) = refl

load_views-images :
    (vs : List Selection) (rest : Bytes)
    → All IsSelection vs
    → load_views (length vs) (images vs ++ rest) ≡ returns (vs, rest)
unfolding load_views images first
load_views-images [] rest h = refl
load_views-images (v ∷ vs) rest h =
    rw (append_assoc (image v) (images vs) rest, image-payload v)
      (rw (
        read-append (tag_of v ∷ []) (payload v ++ (images vs ++ rest)),
        load_selection-payload v (images vs ++ rest) h.0,
        load_views-images vs rest h.1,
      ))

-- A descriptor whose sizes, counts and offsets fit into 64 bits is what `load` reads from the
-- bytes that `save` writes, and what stands behind them is left.
pub load-save :
    (d : DataDescriptor) (rest : Bytes)
    → IsDescriptor d
    → load (save [] d ++ rest) ≡ returns (d, rest)
unfolding load descriptor_image
load-save d rest h =
    rw (save-image d, descriptor_image)
      (simp append_assoc (
        rw (
          read_u64-encode d.size _ h.sized,
          read_u64-encode (length d.location) _ h.located,
          read-append d.location (encode_u64 (length d.views) ++ (images d.views ++ rest)),
          read_u64-encode (length d.views) (images d.views ++ rest) h.counted,
          load_views-images d.views rest h.selections,
        )))

-- How long the descriptor of a location without views is saved.
pub length-save_from :
    (location : Bytes) (size : ℕ)
    → length (save [] (from location size)) ≡ 3 * word + length location
unfolding save save_views
length-save_from location size = omega (
  arith,
  length-append (encode_u64 size) (encode_u64 (length location)),
  length-append (encode_u64 size ++ encode_u64 (length location)) location,
  length-append ((encode_u64 size ++ encode_u64 (length location)) ++ location) (encode_u64 0),
  length-encode_u64 size,
  length-encode_u64 (length location),
  length-encode_u64 0,
)
