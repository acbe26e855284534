-- ===== src/TopicManager/Memory/Transfer.antt =====
-- What the transfers of receiveBatch bring and write.
use mofka.TopicManager.Packed.{packed, packed-sizes, packed-content, offsets-concat, resize_self}
use mofka.Prelude.{
  length, All, concat, lengths, concat-append, lengths-append, length-lengths, IsU64, ℕ, ◌≡◌, sym,
  List, ◌++◌, arith,
}
use mofka.TopicManager.{offsets_from, Cursors, length-offsets_from}
use mofka.TopicManager.Memory.{MemoryTopic, add_metadata, add_data}
use mofka.TopicManager.Memory.Log.{
  descriptors, Stored, metadatas, contents, topic_of, metadatas-append, contents-append,
  length-metadatas, length-contents,
}

-- The topic between the transfers and the descriptors: the events of `es` and `fs`, of which those of
-- `es` have descriptors.
abbrev pub undescribed : (es fs : List Stored) → Cursors → MemoryTopic
undescribed es fs cursors =
    let descs = descriptors 0 (lengths (contents es)) in
    record (topic_of (es ++ fs) cursors) {
      events_data_desc = concat descs;
      events_data_desc_offsets = offsets_from 0 (lengths descs);
      events_data_desc_sizes = lengths descs;
    }

length-fs : (fs : List Stored) → length fs ≡ length (metadatas fs)
length-fs fs = sym (length-metadatas fs)

-- A topic with the metadata of more events.
abbrev with_metadata : List Stored → MemoryTopic → MemoryTopic
with_metadata fs t = record t {
  events_metadata_sizes = t.events_metadata_sizes ++ lengths (metadatas fs);
  events_metadata_offsets =
      t.events_metadata_offsets ++ offsets_from (length t.events_metadata) (lengths (metadatas fs));
  events_metadata = t.events_metadata ++ concat (metadatas fs);
}

add_metadata-packed :
    (fs : List Stored) (t : MemoryTopic)
    → All IsU64 (lengths (metadatas fs))
    → add_metadata (length fs) (packed (metadatas fs)) t ≡ with_metadata fs t
unfolding add_metadata
add_metadata-packed fs t u =
    rw (length-fs fs, packed-sizes (metadatas fs) u, packed-content (metadatas fs))

add_data-packed :
    (first_id : ℕ) (fs : List Stored) (t : MemoryTopic)
    → All IsU64 (lengths (contents fs))
    → first_id ≡ length t.events_data_sizes
    → first_id ≡ length t.events_data_offsets
    → add_data first_id (length fs) (packed (contents fs)) t ≡ record t {
      events_data_sizes = t.events_data_sizes ++ lengths (contents fs);
      events_data_offsets =
          t.events_data_offsets ++ offsets_from (length t.events_data) (lengths (contents fs));
      events_data = t.events_data ++ concat (contents fs);
    }
unfolding add_data
add_data-packed first_id fs t u es eo =
    rw
      (
        resize_self first_id 0 t.events_data_sizes es,
        resize_self first_id 0 t.events_data_offsets eo,
      )
      (rw (← length-contents fs, packed-sizes (contents fs) u, packed-content (contents fs)))

data_sizes_lem : (es : List Stored) → length es ≡ length (lengths (contents es))
data_sizes_lem es = omega (arith, length-lengths (contents es), length-contents es)

data_offsets_lem : (es : List Stored) → length es ≡ length (offsets_from 0 (lengths (contents es)))
data_offsets_lem es =
    omega (arith, length-offsets_from 0 (lengths (contents es)), data_sizes_lem es)

pub transferred :
    (es fs : List Stored) (cursors : Cursors)
    → All IsU64 (lengths (metadatas fs))
    → All IsU64 (lengths (contents fs))
    → add_data
        (length es)
        (length fs)
        (packed (contents fs))
        (add_metadata (length fs) (packed (metadatas fs)) (topic_of es cursors))
      ≡ undescribed es fs cursors
unfolding topic_of
transferred es fs cursors um ud = rw (add_metadata-packed fs (topic_of es cursors) um) (
    rw
      (add_data-packed (length es) fs (with_metadata fs (topic_of es cursors)) ud
        (data_sizes_lem es) (data_offsets_lem es))
      (rw (
        metadatas-append es fs,
        contents-append es fs,
        offsets-concat (metadatas es) (metadatas fs),
        offsets-concat (contents es) (contents fs),
        lengths-append (metadatas es) (metadatas fs),
        lengths-append (contents es) (contents fs),
        concat-append (metadatas es) (metadatas fs),
        concat-append (contents es) (contents fs),
      )))
