-- ===== src/TopicManager/Default/AsDefault.antt =====
-- A topic in memory (src/MemoryTopicManager.cpp) read as a default topic (src/DefaultTopicManager.cpp).
use mofka.Rdma.{Rdma, BulkRef}
use mofka.Descriptor.{DataDescriptor, from}
use mofka.Prelude.{
  Outcome, length, take, drop, replicate, resize, length-append, length-take, length-replicate,
  drop-append_eq, Bytes, word, decode_words, returns, throws, ℕ, zero, suc, ◌+◌, ◌-◌, ◌≡◌, refl,
  sym, ap, Option, none, some, List, [], ◌∷◌, arith,
}
use mofka.TopicManager.{offsets_from}
use mofka.TopicManager.Memory.{MemoryTopic, offset_size_string}
use mofka.TopicManager.Default.{DefaultTopic}
use mofka.TopicManager.Memory
use mofka.TopicManager.Default

-- A topic in memory without its data.
unfoldable pub as_default : MemoryTopic → DefaultTopic
as_default t = record {
  events_metadata = t.events_metadata;
  events_metadata_offsets = t.events_metadata_offsets;
  events_metadata_sizes = t.events_metadata_sizes;
  events_data_desc = t.events_data_desc;
  events_data_desc_offsets = t.events_data_desc_offsets;
  events_data_desc_sizes = t.events_data_desc_sizes;
  consumer_cursor = t.consumer_cursor;
}

-- The descriptors of data at given offsets.
unfoldable pub locations : List ℕ → List ℕ → List DataDescriptor
locations (o ∷ os) (s ∷ ss) = from (offset_size_string o s) s ∷ locations os ss
locations _ _ = []

-- A data store that puts the data of a batch behind `stored` bytes.
unfoldable pub memory_store :
    (R : Rdma) (stored : ℕ) → ℕ → BulkRef R.Bulk → Outcome (Outcome (List DataDescriptor))
memory_store R stored num_events data_bulk =
    elim (R.transfer data_bulk.handle data_bulk.offset data_bulk.size) [
      | throws what ↦ throws what
      | returns content ↦
          let sizes = decode_words num_events content in
          returns (returns (locations (offsets_from stored sizes) sizes))
    ]

-- An answer of the topic in memory as one of the default topic.
unfoldable pub as_answer : Outcome ℕ × MemoryTopic → Outcome (Outcome ℕ) × DefaultTopic
unfolding as_default
as_answer (throws what, t) = (throws what, as_default t)
as_answer (returns first_id, t) = (returns (returns first_id), as_default t)

unfoldable pub as_answers :
    Option (Outcome ℕ × MemoryTopic) → Option (Outcome (Outcome ℕ) × DefaultTopic)
as_answers none = none
as_answers (some a) = some (as_answer a)

pub length-decode_words : (n : ℕ) (bytes : Bytes) → length (decode_words n bytes) ≡ n
unfolding decode_words
length-decode_words zero bytes = refl
length-decode_words (suc n) bytes = ap suc (length-decode_words n (drop word bytes))

pub length-locations :
    (offset : ℕ) (ss : List ℕ) → length (locations (offsets_from offset ss) ss) ≡ length ss
unfolding locations offsets_from
length-locations offset [] = refl
length-locations offset (s ∷ ss) = ap suc (length-locations (offset + s) ss)

length-resize : (n : ℕ) (xs : List ℕ) → length (resize n 0 xs) ≡ n
length-resize n xs = omega (
  arith,
  length-append (take n xs) (replicate (n - length xs) 0),
  length-take n xs,
  length-replicate {A = ℕ} (n - length xs) 0,
)

add_descriptors-as_default :
    (os ss : List ℕ) (off : ℕ) (t : MemoryTopic)
    → as_default (Memory.add_descriptors os ss off t)
      ≡ Default.add_descriptors (locations os ss) off (as_default t)
unfolding as_default locations Memory.add_descriptors Default.add_descriptors
add_descriptors-as_default [] ss off t = refl
add_descriptors-as_default (o ∷ os) [] off t = refl
add_descriptors-as_default (o ∷ os) (s ∷ ss) off t = add_descriptors-as_default os ss _ _

pub describe-as_default :
    (first_id num : ℕ) (content : Bytes) (t : MemoryTopic)
    → let sizes = decode_words num content in
      as_default (Memory.describe first_id (Memory.add_data first_id num content t))
      ≡ Default.describe first_id
          (locations (offsets_from (length t.events_data) sizes) sizes)
          (as_default t)
unfolding Memory.describe Memory.add_data Default.describe as_default
describe-as_default first_id num content t =
    let sizes = decode_words num content in
    let offsets = offsets_from (length t.events_data) sizes in
    rw
      (
        drop-append_eq first_id (resize first_id 0 t.events_data_sizes) sizes
            (sym (length-resize first_id t.events_data_sizes)),
        drop-append_eq first_id (resize first_id 0 t.events_data_offsets) offsets
            (sym (length-resize first_id t.events_data_offsets)),
      )
      (add_descriptors-as_default offsets sizes _ _)
