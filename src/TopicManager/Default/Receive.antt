-- ===== src/TopicManager/Default/Receive.antt =====
-- receiveBatch appends the events of the batch to the log.
use mofka.Rdma.{Rdma, IsRdma, BulkRef}
use mofka.TopicManager.Packed.{
  resize_self, packed, packed-sizes, packed-content, offsets-concat, offsets-sum, length-packed,
  transfer_all, whole,
}
use mofka.Descriptor.Encoding.{save-append}
use mofka.TopicManager.Default.Log.{topic_with, images, first_id_lem}
use mofka.TopicManager.{Cursors, offsets_from, length-offsets_from, desc_end_lem}
use mofka.Descriptor.{DataDescriptor, save}
use mofka.Prelude.{
  Outcome, length, length-append, take_all, sum, All, concat, lengths, concat-append,
  lengths-append, length-lengths, ltb, Bytes, IsU64, word, returns, ℕ, ◌+◌, ◌-◌, ◌*◌, ◌≤◌, String,
  ◌≡◌, ap, ◌∙◌, false, some, List, [], ◌∷◌, ◌++◌, append-nil, append_assoc, arith,
}
use mofka.TopicManager.Default.{
  DefaultTopic, add_metadata, add_descriptors, describe, take_stored, receive_batch,
}

-- The topic after one round: a descriptor and its size.
abbrev one_more : Bytes → (size off : ℕ) → DefaultTopic → DefaultTopic
one_more desc size off t = record t {
  events_data_desc = desc;
  events_data_desc_sizes = t.events_data_desc_sizes ++ (size ∷ []);
  events_data_desc_offsets = t.events_data_desc_offsets ++ (off ∷ []);
}

add_descriptors_step :
    (d : DataDescriptor) (ds : List DataDescriptor) (off : ℕ) (t : DefaultTopic)
    → let image = save [] d in
      add_descriptors (d ∷ ds) off t
      ≡ add_descriptors ds
          (off + length image)
          (one_more (t.events_data_desc ++ image) (length image) off t)
unfolding add_descriptors
add_descriptors_step d ds off t =
    let image = save [] d in
    let size : length (t.events_data_desc ++ image) - length t.events_data_desc ≡ length image =
      omega (arith, length-append t.events_data_desc image) in
    ap
      (λ (x : Bytes).
        add_descriptors ds (off + (length x - length t.events_data_desc))
          (one_more x (length x - length t.events_data_desc) off t))
      (save-append t.events_data_desc d)
    ∙ ap (λ (n : ℕ). add_descriptors ds (off + n) (one_more (t.events_data_desc ++ image) n off t))
        size

pub add_descriptors_lem :
    (ds : List DataDescriptor) (off : ℕ) (t : DefaultTopic)
    → add_descriptors ds off t ≡ record t {
      events_data_desc = t.events_data_desc ++ concat (images ds);
      events_data_desc_sizes = t.events_data_desc_sizes ++ lengths (images ds);
      events_data_desc_offsets =
          t.events_data_desc_offsets ++ offsets_from off (lengths (images ds));
    }
unfolding offsets_from
add_descriptors_lem [] off t = unfold add_descriptors in simp append-nil
add_descriptors_lem (d ∷ ds) off t =
    let image = save [] d in
    add_descriptors_step d ds off t
    ∙ (add_descriptors_lem ds (off + length image)
          (one_more (t.events_data_desc ++ image) (length image) off t)
        ∙ simp append_assoc)

-- The topic between the transfer of the metadata and the descriptors.
abbrev undescribed : (ms ns descs : List Bytes) → Cursors → DefaultTopic
undescribed ms ns descs cursors = record (topic_with (ms ++ ns) descs cursors) {
  events_data_desc = concat descs;
}

transferred :
    (ms ns descs : List Bytes) (cursors : Cursors)
    → All IsU64 (lengths ns)
    → add_metadata (length ns) (packed ns) (topic_with ms descs cursors)
      ≡ topic_with (ms ++ ns) descs cursors
unfolding add_metadata topic_with
transferred ms ns descs cursors u =
    rw (packed-sizes ns u, packed-content ns)
      (rw (offsets-concat ms ns, lengths-append ms ns, concat-append ms ns))

described :
    (ms descs : List Bytes) (ds : List DataDescriptor) (cursors : Cursors)
    → (n : ℕ) → n ≡ length descs
    → describe n ds (topic_with ms descs cursors) ≡ topic_with ms (descs ++ images ds) cursors
unfolding describe topic_with
described ms descs ds cursors n k =
    let sizes : n ≡ length (lengths descs) = omega (arith, length-lengths descs) in
    let kept : n ≡ length (offsets_from 0 (lengths descs)) =
      omega (arith, length-offsets_from 0 (lengths descs), length-lengths descs) in
    rw
      (
        resize_self n 0 (lengths descs) sizes,
        resize_self n 0 (offsets_from 0 (lengths descs)) kept,
        desc_end_lem (lengths descs),
      )
      (add_descriptors_lem ds (sum (lengths descs)) _
        ∙ rw (
          concat-append descs (images ds),
          offsets-sum descs (images ds),
          lengths-append descs (images ds),
        ))

takes :
    (num first_id : ℕ) (ds : List DataDescriptor) (ms descs : List Bytes) (cursors : Cursors)
    → length ds ≡ num
    → first_id ≡ length descs
    → take_stored num first_id (returns (returns ds)) (topic_with ms descs cursors)
      ≡ some (returns (returns first_id), topic_with ms (descs ++ images ds) cursors)
unfolding take_stored
takes num first_id ds ms descs cursors l k =
    let enough : ltb (length ds) num ≡ false = ground arith in
    rw enough (rw (take_all num ds (omega arith), described ms descs ds cursors first_id k))

fits : (ns : List Bytes) → ltb (length (packed ns)) (length ns * word) ≡ false
fits ns = let m : length ns * word ≤ length (packed ns) = length-packed ns in ground arith

module _ (R : Rdma) (store : ℕ → BulkRef R.Bulk → Outcome (Outcome (List DataDescriptor))) where
  -- Up to the data store: the metadata of a batch is added to the topic, and then the store is called.
  pub receive_batch_stores :
      (ms descs ns : List Bytes) (cursors : Cursors) (segments : List Bytes) (address : String)
      (data_bulk : BulkRef R.Bulk)
      → IsRdma R
      → concat segments ≡ packed ns
      → All IsU64 (lengths ns)
      → receive_batch R store
          (length ns)
          (whole R segments address)
          data_bulk
          (topic_with ms descs cursors)
        ≡ take_stored
            (length ns)
            (length ms)
            (store (length ns) data_bulk)
            (topic_with (ms ++ ns) descs cursors)
  unfolding receive_batch
  receive_batch_stores ms descs ns cursors segments address data_bulk law e u =
      rw (transfer_all R segments law)
        (rw (e, first_id_lem ms descs cursors) (rw (fits ns, transferred ms ns descs cursors u)))

  -- A batch whose metadata arrives as sizes and entries, and for whose data the store returns a
  -- descriptor for each event, is appended to the log: the answer is the number of events before, and
  -- the topic has the metadata and the saved descriptors behind those that were there. The log has a
  -- descriptor for each event before, transfers within what is exposed succeed, and the sizes of the
  -- metadata fit into 64 bits.
  pub receive_batch-append_stored :
      (ms descs ns : List Bytes) (ds : List DataDescriptor) (cursors : Cursors)
      (segments : List Bytes) (address : String) (data_bulk : BulkRef R.Bulk)
      → IsRdma R
      → concat segments ≡ packed ns
      → All IsU64 (lengths ns)
      → length ms ≡ length descs
      → length ds ≡ length ns
      → store (length ns) data_bulk ≡ returns (returns ds)
      → receive_batch R store
          (length ns)
          (whole R segments address)
          data_bulk
          (topic_with ms descs cursors)
        ≡ some (returns (returns (length ms)), topic_with (ms ++ ns) (descs ++ images ds) cursors)
  receive_batch-append_stored ms descs ns ds cursors segments address data_bulk law e u k l s =
      receive_batch_stores ms descs ns cursors segments address data_bulk law e u
      ∙ rw s (takes (length ns) (length ms) ds (ms ++ ns) descs cursors l k)
