-- ===== src/Descriptor.antt =====
-- include/mofka/DataDescriptor.hpp, src/DataDescriptor.cpp and src/DataDescriptorImpl.hpp: a location
-- of data with a stack of selections.
-- `ceil_quotient a b` stands for `std::ceil((double)a/(double)b)`.
pub mod Encoding
pub mod Views
pub mod Tests
use mofka.Prelude.{
  Outcome, ◌>>=◌, length, take, drop, ◌==◌, if◌then◌else◌, Bytes, word, encode_u64, decode_u64,
  returns, ℕ, zero, suc, ◌*◌, ◌%◌, ◌^◌, List, [], ◌∷◌, ◌++◌,
}
use mofka.Archive.{write, read, read_u64}

pub record Sub : Type 0 where
  pub offset : ℕ
  pub size : ℕ

pub record Strided : Type 0 where
  pub offset : ℕ
  pub numblocks : ℕ
  pub blocksize : ℕ
  pub gapsize : ℕ

pub data Selection : Type 0 where
  sub : Sub → Selection
  strided : Strided → Selection
  unstructured : List (ℕ × ℕ) → Selection

pub record DataDescriptor : Type 0 where
  pub location : Bytes
  pub views : List Selection
  pub size : ℕ

abbrev pub null : DataDescriptor
null = record { location = []; views = []; size = 0 }

abbrev pub from : Bytes → ℕ → DataDescriptor
from location size = record { location = location; views = []; size = size }

-- The memory of a vector of `std::pair<size_t, size_t>`.
encode_pairs : List (ℕ × ℕ) → Bytes
encode_pairs [] = []
encode_pairs ((a, b) ∷ ps) = encode_u64 a ++ (encode_u64 b ++ encode_pairs ps)

save_selection : Bytes → Selection → Bytes
save_selection ar (sub s) =
    let ar₁ = write ar (0 ∷ []) in
    let ar₂ = write ar₁ (encode_u64 s.offset) in write ar₂ (encode_u64 s.size)
save_selection ar (strided s) =
    let ar₁ = write ar (1 ∷ []) in
    let ar₂ = write ar₁ (encode_u64 s.offset) in
    let ar₃ = write ar₂ (encode_u64 s.numblocks) in
    let ar₄ = write ar₃ (encode_u64 s.blocksize) in write ar₄ (encode_u64 s.gapsize)
save_selection ar (unstructured segments) =
    let ar₁ = write ar (2 ∷ []) in
    let ar₂ = write ar₁ (encode_u64 (length segments)) in write ar₂ (encode_pairs segments)

save_views : Bytes → List Selection → Bytes
save_views ar [] = ar
save_views ar (v ∷ vs) = save_views (save_selection ar v) vs

-- DataDescriptorImpl::save.
pub save : Bytes → DataDescriptor → Bytes
save ar d =
    let ar₁ = write ar (encode_u64 d.size) in
    let ar₂ = write ar₁ (encode_u64 (length d.location)) in
    let ar₃ = write ar₂ d.location in
    let ar₄ = write ar₃ (encode_u64 (length d.views)) in save_views ar₄ d.views

-- The pairs of a vector of `n`, of whose memory the first bytes were read: the others are zero.
decode_pairs : ℕ → Bytes → List (ℕ × ℕ)
decode_pairs zero bytes = []
decode_pairs (suc n) bytes =
    (decode_u64 (take word bytes), decode_u64 (take word (drop word bytes)))
    ∷ decode_pairs n (drop word (drop word bytes))

-- One round of the loop of `load`: a tag that is no ViewType pushes nothing.
load_selection : ℕ → Bytes → Outcome (List Selection × Bytes)
load_selection tag ar =
    if tag == 0
    then (do
      (offset, ar₁) ← read_u64 ar
      (size, ar₂) ← read_u64 ar₁
      returns (sub (record { offset = offset; size = size }) ∷ [], ar₂))
    else if tag == 1
    then (do
      (offset, ar₁) ← read_u64 ar
      (numblocks, ar₂) ← read_u64 ar₁
      (blocksize, ar₃) ← read_u64 ar₂
      (gapsize, ar₄) ← read_u64 ar₃
      returns (
        strided (record {
          offset = offset;
          numblocks = numblocks;
          blocksize = blocksize;
          gapsize = gapsize;
        })
            ∷ [],
        ar₄,
      ))
    else if tag == 2
    then (do
      (num_segments, ar₁) ← read_u64 ar
      (bytes, ar₂) ← read (num_segments * 16 % 2 ^ 64) ar₁
      returns (unstructured (decode_pairs num_segments bytes) ∷ [], ar₂))
    else returns ([], ar)

-- The byte that was read into `t`.
first : Bytes → ℕ
first [] = 0
first (b ∷ bs) = b

load_views : ℕ → Bytes → Outcome (List Selection × Bytes)
load_views zero ar = returns ([], ar)
load_views (suc n) ar = do
  (tag, ar₁) ← read 1 ar
  (view, ar₂) ← load_selection (first tag) ar₁
  (views, ar₃) ← load_views n ar₂
  returns (view ++ views, ar₃)

-- DataDescriptorImpl::load, as the descriptor that it leaves and what is left of the archive.
pub load : Bytes → Outcome (DataDescriptor × Bytes)
load ar = do
  (size, ar₁) ← read_u64 ar
  (location_size, ar₂) ← read_u64 ar₁
  (location, ar₃) ← read location_size ar₂
  (num_views, ar₄) ← read_u64 ar₃
  (views, ar₅) ← load_views num_views ar₄
  returns (record { location = location; views = views; size = size }, ar₅)
