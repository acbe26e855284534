-- ===== src/TopicManager/Default/FailedBatch.antt =====
-- How receiveBatch of src/DefaultTopicManager.cpp goes on after a failing data store.
use mofka.Descriptor.{DataDescriptor}
use mofka.Rdma.{Rdma, IsRdma, BulkRef}
use mofka.Prelude.{
  Outcome, length, replicate, resize, length-append, take_all, sum, All, concat, lengths,
  length-lengths, ltb, Bytes, IsU64, returns, throws, ℕ, ◌+◌, ◌-◌, String, ◌≡◌, refl, ap, ◌∙◌,
  false, some, List, ◌++◌, arith,
}
use mofka.TopicManager.{offsets_from, Cursors, length-offsets_from, desc_end_lem}
use mofka.TopicManager.Packed.{whole, packed}
use mofka.TopicManager.Default.{DefaultTopic, receive_batch, describe, take_stored}
use mofka.TopicManager.Default.Log.{topic_with, images}
use mofka.TopicManager.Default.Receive.{receive_batch_stores, add_descriptors_lem}

-- The topic after a batch with metadata `ns` whose data could not be stored, and a batch with metadata
-- `ps` whose data could.
abbrev pub patched : (ms descs ns ps : List Bytes) → List DataDescriptor → Cursors → DefaultTopic
patched ms descs ns ps ds cursors = record (topic_with ((ms ++ ns) ++ ps) descs cursors) {
  events_data_desc = concat descs ++ concat (images ds);
  events_data_desc_sizes = (lengths descs ++ replicate (length ns) 0) ++ lengths (images ds);
  events_data_desc_offsets =
      (offsets_from 0 (lengths descs) ++ replicate (length ns) 0)
      ++ offsets_from (sum (lengths descs)) (lengths (images ds));
}

module _ (R : Rdma) (store : ℕ → BulkRef R.Bulk → Outcome (Outcome (List DataDescriptor))) where
  -- A batch whose data the store cannot keep, as it throws, ends with that exception, although its
  -- metadata stays in the log, without descriptors. The metadata arrives as sizes and entries that fit into 64
  -- bits, and transfers within what is exposed succeed.
  pub receive_batch_throws :
      (ms descs ns : List Bytes) (cursors : Cursors) (segments : List Bytes) (address what : String)
      (data_bulk : BulkRef R.Bulk)
      → IsRdma R
      → concat segments ≡ packed ns
      → All IsU64 (lengths ns)
      → store (length ns) data_bulk ≡ throws what
      → receive_batch R store
          (length ns)
          (whole R segments address)
          data_bulk
          (topic_with ms descs cursors)
        ≡ some (throws what, topic_with (ms ++ ns) descs cursors)
  unfolding take_stored
  receive_batch_throws ms descs ns cursors segments address what data_bulk law e u s =
      receive_batch_stores R store ms descs ns cursors segments address data_bulk law e u
      ∙ rw s refl

  resize_longer : (n k : ℕ) (xs : List ℕ) → n ≡ length xs + k → resize n 0 xs ≡ xs ++ replicate k 0
  resize_longer n k xs e =
      let missing : n - length xs ≡ k = omega arith in
      rw (take_all n xs (omega arith), missing) refl

  takes_patched :
      (ms descs ns ps : List Bytes) (ds : List DataDescriptor) (cursors : Cursors)
      → length ms ≡ length descs
      → length ds ≡ length ps
      → take_stored
          (length ps)
          (length (ms ++ ns))
          (returns (returns ds))
          (topic_with ((ms ++ ns) ++ ps) descs cursors)
        ≡ some (returns (returns (length (ms ++ ns))), patched ms descs ns ps ds cursors)
  unfolding take_stored describe topic_with
  takes_patched ms descs ns ps ds cursors k l =
      let enough : ltb (length ds) (length ps) ≡ false = ground arith in
      let sizes : length (ms ++ ns) ≡ length (lengths descs) + length ns =
        omega (arith, length-append ms ns, length-lengths descs) in
      let offsets : length (ms ++ ns) ≡ length (offsets_from 0 (lengths descs)) + length ns =
        omega (arith, length-offsets_from 0 (lengths descs), sizes) in
      rw (enough, take_all (length ps) ds (omega arith))
        (rw
          (
            resize_longer (length (ms ++ ns)) (length ns) (lengths descs) sizes,
            resize_longer (length (ms ++ ns)) (length ns) (offsets_from 0 (lengths descs)) offsets,
            desc_end_lem (lengths descs),
          )
          (ap (λ t. some (returns (returns (length (ms ++ ns))), t))
            (add_descriptors_lem ds (sum (lengths descs)) _)))

  pub received_patched :
      (ms descs ns ps : List Bytes) (ds : List DataDescriptor) (cursors : Cursors)
      (segments : List Bytes) (address : String) (data_bulk : BulkRef R.Bulk)
      → IsRdma R
      → concat segments ≡ packed ps
      → All IsU64 (lengths ps)
      → length ms ≡ length descs
      → length ds ≡ length ps
      → store (length ps) data_bulk ≡ returns (returns ds)
      → receive_batch R store
          (length ps)
          (whole R segments address)
          data_bulk
          (topic_with (ms ++ ns) descs cursors)
        ≡ some (returns (returns (length (ms ++ ns))), patched ms descs ns ps ds cursors)
  received_patched ms descs ns ps ds cursors segments address data_bulk law e u k l s =
      receive_batch_stores R store (ms ++ ns) descs ps cursors segments address data_bulk law e u
      ∙ rw s (takes_patched ms descs ns ps ds cursors k l)
