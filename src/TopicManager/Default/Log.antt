-- ===== src/TopicManager/Default/Log.antt =====
-- The topic that holds given metadata and saved descriptors.
use mofka.Descriptor.{DataDescriptor, save}
use mofka.TopicManager.{Cursors, offsets_from}
use mofka.Prelude.{
  length, concat, lengths, length-lengths, Bytes, suc, ◌≡◌, refl, ap, List, [], ◌∷◌,
}
use mofka.TopicManager.Default.{DefaultTopic}

-- The state of a topic whose events have these metadata and these saved descriptors, one of each.
unfoldable pub topic_with : (ms descs : List Bytes) → Cursors → DefaultTopic
topic_with ms descs cursors = record {
  events_metadata = concat ms;
  events_metadata_offsets = offsets_from 0 (lengths ms);
  events_metadata_sizes = lengths ms;
  events_data_desc = concat descs;
  events_data_desc_offsets = offsets_from 0 (lengths descs);
  events_data_desc_sizes = lengths descs;
  consumer_cursor = cursors;
}

-- The bytes that descriptors are saved as.
abbrev pub images : List DataDescriptor → List Bytes
images [] = []
images (d ∷ ds) = save [] d ∷ images ds

pub first_id_lem :
    (ms descs : List Bytes) (cursors : Cursors)
    → length (topic_with ms descs cursors).events_metadata_sizes ≡ length ms
unfolding topic_with
first_id_lem ms descs cursors = length-lengths ms

pub length-images : (ds : List DataDescriptor) → length (images ds) ≡ length ds
length-images [] = refl
length-images (d ∷ ds) = ap suc (length-images ds)
