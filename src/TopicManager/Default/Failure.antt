-- ===== src/TopicManager/Default/Failure.antt =====
-- What src/DefaultTopicManager.cpp feeds to a consumer after a failing data store.
use mofka.Descriptor.{DataDescriptor}
use mofka.Rdma.{Rdma}
use mofka.Prelude.{
  length, take, replicate, sum, concat, lengths, Bytes, word, encode_words, ◌*◌, String, List, [],
  ◌∷◌, ◌++◌,
}
use mofka.TopicManager.{Fed, fed_of}
use mofka.TopicManager.Default.Log.{images}

-- What is fed for the events of a failed batch and of the batch after it: the sizes of the descriptors
-- are right, and the bytes are those at the start of all descriptors.
abbrev pub misread :
    (R : Rdma) (ms descs ns ps : List Bytes) → List DataDescriptor → String → Fed R.Bulk
misread R ms descs ns ps ds address =
    let sizes = replicate (length ns) 0 ++ lengths (images ds) in
    let bytes = take (sum sizes) (concat descs ++ concat (images ds)) in
    let d = R.expose (encode_words sizes ∷ bytes ∷ []) in
    let num = length (ns ++ ps) in
    record (fed_of R (length ms) (ns ++ ps) [] address) {
      data_desc_sizes = record { handle = d; offset = 0; size = num * word; address = address };
      data_desc = record { handle = d; offset = num * word; size = sum sizes; address = address };
    }
