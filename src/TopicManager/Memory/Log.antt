-- ===== src/TopicManager/Memory/Log.antt =====
-- The topic that holds a given log of events.
use mofka.Prelude.{
  length, take, drop, length-append, sum, All, concat, lengths, Bytes, IsU64, word, encode_u64,
  length-encode_u64, ℕ, zero, suc, ◌+◌, ◌*◌, ◌≡◌, refl, ap, List, [], ◌∷◌, ◌++◌, arith,
}
use mofka.Descriptor.Encoding.{length-save_from}
use mofka.Descriptor.{DataDescriptor, save, from}
use mofka.TopicManager.{offsets_from, Cursors}
use mofka.TopicManager.Memory.{MemoryTopic, offset_size_string}

-- An event as it is stored: the serialized metadata and the data.
pub record Stored : Type 0 where
  pub metadata : Bytes
  pub content : Bytes

abbrev pub metadatas : List Stored → List Bytes
metadatas [] = []
metadatas (e ∷ es) = e.metadata ∷ metadatas es

abbrev pub contents : List Stored → List Bytes
contents [] = []
contents (e ∷ es) = e.content ∷ contents es

-- The descriptor of data at an offset, and its bytes.
abbrev pub described : (offset size : ℕ) → DataDescriptor
described offset size = from (offset_size_string offset size) size

-- The saved descriptors of data that lie one behind the other.
unfoldable pub descriptors : ℕ → List ℕ → List Bytes
descriptors offset [] = []
descriptors offset (s ∷ ss) = save [] (described offset s) ∷ descriptors (offset + s) ss

-- The state of a topic with exactly the events of a log.
unfoldable pub topic_of : List Stored → Cursors → MemoryTopic
topic_of es cursors =
    let ms = lengths (metadatas es) in
    let ds = lengths (contents es) in
    let descs = descriptors 0 ds in
    record {
      events_metadata = concat (metadatas es);
      events_metadata_offsets = offsets_from 0 ms;
      events_metadata_sizes = ms;
      events_data = concat (contents es);
      events_data_offsets = offsets_from 0 ds;
      events_data_sizes = ds;
      events_data_desc = concat descs;
      events_data_desc_offsets = offsets_from 0 (lengths descs);
      events_data_desc_sizes = lengths descs;
      consumer_cursor = cursors;
    }

pub metadatas-append : (es fs : List Stored) → metadatas (es ++ fs) ≡ metadatas es ++ metadatas fs
metadatas-append [] fs = refl
metadatas-append (e ∷ es) fs = rw (metadatas-append es fs)

pub contents-append : (es fs : List Stored) → contents (es ++ fs) ≡ contents es ++ contents fs
contents-append [] fs = refl
contents-append (e ∷ es) fs = rw (contents-append es fs)

pub length-metadatas : (es : List Stored) → length (metadatas es) ≡ length es
length-metadatas [] = refl
length-metadatas (e ∷ es) = ap suc (length-metadatas es)

pub length-contents : (es : List Stored) → length (contents es) ≡ length es
length-contents [] = refl
length-contents (e ∷ es) = ap suc (length-contents es)

pub descriptors-append :
    (offset : ℕ) (xs ys : List ℕ)
    → descriptors offset (xs ++ ys) ≡ descriptors offset xs ++ descriptors (offset + sum xs) ys
unfolding descriptors
descriptors-append offset [] ys = let e : offset + 0 ≡ offset = omega arith in rw e
descriptors-append offset (x ∷ xs) ys =
    let e : offset + (x + sum xs) ≡ offset + x + sum xs = omega arith in
    rw e (ap (λ r. save [] (described offset x) ∷ r) (descriptors-append (offset + x) xs ys))

pub length-descriptors : (offset : ℕ) (ss : List ℕ) → length (descriptors offset ss) ≡ length ss
unfolding descriptors
length-descriptors offset [] = refl
length-descriptors offset (s ∷ ss) = ap suc (length-descriptors (offset + s) ss)

length-described : (offset size : ℕ) → length (save [] (described offset size)) ≡ 5 * word
unfolding offset_size_string
length-described offset size = omega (
  arith,
  length-save_from (offset_size_string offset size) size,
  length-append (encode_u64 offset) (encode_u64 size),
  length-encode_u64 offset,
  length-encode_u64 size,
)

-- The sizes of saved descriptors fit into 64 bits.
pub descriptors-IsU64 :
    (num first offset : ℕ) (ss : List ℕ)
    → All IsU64 (lengths (take num (drop first (descriptors offset ss))))
unfolding descriptors
descriptors-IsU64 zero first offset ss = tt
descriptors-IsU64 (suc n) zero offset [] = tt
descriptors-IsU64 (suc n) zero offset (s ∷ ss) =
    (omega (arith, length-described offset s), descriptors-IsU64 n zero (offset + s) ss)
descriptors-IsU64 (suc n) (suc k) offset [] = tt
descriptors-IsU64 (suc n) (suc k) offset (s ∷ ss) = descriptors-IsU64 (suc n) k (offset + s) ss
