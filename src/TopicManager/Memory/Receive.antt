-- ===== src/TopicManager/Memory/Receive.antt =====
-- receiveBatch appends the events of the batch to the log.
use mofka.TopicManager.Packed.{
  offsets-sum, resize_self, whole, packed, length-packed, transfer_all, offsets-concat,
}
use mofka.Prelude.{
  length, drop, length-append, drop-append_eq, sum, All, concat, lengths, concat-append,
  lengths-append, length-concat, length-lengths, ltb, Bytes, IsU64, word, returns, ℕ, ◌+◌, ◌-◌, ◌*◌,
  ◌≤◌, String, ◌≡◌, ap, ◌∙◌, subst, false, ◌||◌, some, List, [], ◌∷◌, ◌++◌, append-nil,
  append_assoc, arith,
}
use mofka.Descriptor.{save}
use mofka.Descriptor.Encoding.{save-append}
use mofka.Rdma.{Rdma, IsRdma}
use mofka.TopicManager.{offsets_from, Cursors, length-offsets_from, desc_end_lem}
use mofka.TopicManager.Memory.{MemoryTopic, add_descriptors, receive_batch, describe}
use mofka.TopicManager.Memory.Log.{
  described, descriptors, Stored, metadatas, contents, topic_of, contents-append, length-metadatas,
  length-contents, descriptors-append, length-descriptors,
}
use mofka.TopicManager.Memory.Transfer.{transferred, undescribed}

-- The topic after one round: a descriptor and its size.
abbrev one_more : Bytes → (size off : ℕ) → MemoryTopic → MemoryTopic
one_more desc size off t = record t {
  events_data_desc = desc;
  events_data_desc_sizes = t.events_data_desc_sizes ++ (size ∷ []);
  events_data_desc_offsets = t.events_data_desc_offsets ++ (off ∷ []);
}

add_descriptors_step :
    (o s off : ℕ) (os ss : List ℕ) (t : MemoryTopic)
    → let image = save [] (described o s) in
      add_descriptors (o ∷ os) (s ∷ ss) off t
      ≡ add_descriptors os ss
          (off + length image)
          (one_more (t.events_data_desc ++ image) (length image) off t)
unfolding add_descriptors
add_descriptors_step o s off os ss t =
    let image = save [] (described o s) in
    let size : length (t.events_data_desc ++ image) - length t.events_data_desc ≡ length image =
      omega (arith, length-append t.events_data_desc image) in
    ap
      (λ (x : Bytes).
        add_descriptors os ss (off + (length x - length t.events_data_desc))
          (one_more x (length x - length t.events_data_desc) off t))
      (save-append t.events_data_desc (described o s))
    ∙ ap
        (λ (n : ℕ).
          add_descriptors os ss (off + n) (one_more (t.events_data_desc ++ image) n off t))
        size

add_descriptors_lem :
    (o off : ℕ) (ss : List ℕ) (t : MemoryTopic)
    → add_descriptors (offsets_from o ss) ss off t ≡ record t {
      events_data_desc = t.events_data_desc ++ concat (descriptors o ss);
      events_data_desc_sizes = t.events_data_desc_sizes ++ lengths (descriptors o ss);
      events_data_desc_offsets =
          t.events_data_desc_offsets ++ offsets_from off (lengths (descriptors o ss));
    }
unfolding offsets_from descriptors
add_descriptors_lem o off [] t = unfold add_descriptors in simp append-nil
add_descriptors_lem o off (s ∷ ss) t =
    let image = save [] (described o s) in
    add_descriptors_step o s off (offsets_from (o + s) ss) ss t
    ∙ (add_descriptors_lem (o + s) (off + length image) ss
          (one_more (t.events_data_desc ++ image) (length image) off t)
        ∙ simp append_assoc)

drop_offsets :
    (es fs : List Stored)
    → drop (length es) (offsets_from 0 (lengths (contents (es ++ fs))))
      ≡ offsets_from (sum (lengths (contents es))) (lengths (contents fs))
drop_offsets es fs =
    rw
      (
        contents-append es fs,
        offsets-concat (contents es) (contents fs),
        length-concat (contents es),
      )
      (drop-append_eq (length es) (offsets_from 0 (lengths (contents es))) _ (
        omega (
          arith,
          length-offsets_from 0 (lengths (contents es)),
          length-lengths (contents es),
          length-contents es,
        )))

drop_sizes :
    (es fs : List Stored) → drop (length es) (lengths (contents (es ++ fs))) ≡ lengths (contents fs)
drop_sizes es fs =
    rw (contents-append es fs, lengths-append (contents es) (contents fs))
      (drop-append_eq (length es) (lengths (contents es)) _
        (omega (arith, length-lengths (contents es), length-contents es)))

length-descs :
    (es : List Stored) → length es ≡ length (lengths (descriptors 0 (lengths (contents es))))
length-descs es = omega (
  arith,
  length-lengths (descriptors 0 (lengths (contents es))),
  length-descriptors 0 (lengths (contents es)),
  length-lengths (contents es),
  length-contents es,
)

descriptors-concat :
    (es fs : List Stored)
    → descriptors 0 (lengths (contents (es ++ fs)))
      ≡ descriptors 0 (lengths (contents es))
        ++ descriptors (sum (lengths (contents es))) (lengths (contents fs))
descriptors-concat es fs =
    rw (contents-append es fs, lengths-append (contents es) (contents fs))
      (descriptors-append 0 (lengths (contents es)) (lengths (contents fs))
        ∙ ap (λ n. descriptors 0 (lengths (contents es)) ++ descriptors n (lengths (contents fs)))
            (omega arith))

describe-undescribed :
    (es fs : List Stored) (cursors : Cursors)
    → describe (length es) (undescribed es fs cursors) ≡ topic_of (es ++ fs) cursors
unfolding describe topic_of
describe-undescribed es fs cursors =
    let descs = descriptors 0 (lengths (contents es)) in
    let kept : length es ≡ length (offsets_from 0 (lengths descs)) =
      omega (arith, length-descs es, length-offsets_from 0 (lengths descs)) in
    rw
      (
        drop_offsets es fs,
        drop_sizes es fs,
        resize_self (length es) 0 (lengths descs) (length-descs es),
        resize_self (length es) 0 (offsets_from 0 (lengths descs)) kept,
        desc_end_lem (lengths descs),
      )
      (add_descriptors_lem (sum (lengths (contents es))) (sum (lengths descs))
          (lengths (contents fs)) _
        ∙ rw (
          descriptors-concat es fs,
          concat-append descs (descriptors (sum (lengths (contents es))) (lengths (contents fs))),
          offsets-sum descs (descriptors (sum (lengths (contents es))) (lengths (contents fs))),
          lengths-append descs (descriptors (sum (lengths (contents es))) (lengths (contents fs))),
        ))

fits :
    (fs : List Stored)
    → (ltb (length (packed (metadatas fs))) (length fs * word)
        || ltb (length (packed (contents fs))) (length fs * word))
      ≡ false
fits fs =
    let m : length fs * word ≤ length (packed (metadatas fs)) =
      subst (λ n. n * word ≤ length (packed (metadatas fs))) (length-metadatas fs)
        (length-packed (metadatas fs)) in
    let d : length fs * word ≤ length (packed (contents fs)) =
      subst (λ n. n * word ≤ length (packed (contents fs))) (length-contents fs)
        (length-packed (contents fs)) in
    ground arith

pub first_id_lem :
    (es : List Stored) (cursors : Cursors)
    → length (topic_of es cursors).events_metadata_sizes ≡ length es
unfolding topic_of
first_id_lem es cursors = length-lengths (metadatas es) ∙ length-metadatas es

module _ (R : Rdma) where
  -- Received in bulk handles whose content is the sizes and then the entries, a batch of events
  -- is appended to the log: the answer is the number of events before, and the topic is that of
  -- the longer log. Transfers within what is exposed succeed, and the sizes of the metadata and
  -- data fit into 64 bits.
  pub receive_batch-append :
      (es fs : List Stored) (cursors : Cursors) (metadata_segments data_segments : List Bytes)
      (address : String)
      → IsRdma R
      → concat metadata_segments ≡ packed (metadatas fs)
      → concat data_segments ≡ packed (contents fs)
      → All IsU64 (lengths (metadatas fs))
      → All IsU64 (lengths (contents fs))
      → receive_batch R
          (length fs)
          (whole R metadata_segments address)
          (whole R data_segments address)
          (topic_of es cursors)
        ≡ some (returns (length es), topic_of (es ++ fs) cursors)
  unfolding receive_batch
  receive_batch-append es fs cursors msegs dsegs address law em ed um ud =
      let small_enough : (ltb (length (packed (metadatas fs))) (length fs * word)
            || ltb (length (packed (contents fs))) (length fs * word))
          ≡ false =
        fits fs in
      rw (transfer_all R msegs law, transfer_all R dsegs law)
        (rw (em, ed)
          (rw (small_enough, first_id_lem es cursors, transferred es fs cursors um ud)
            (rw (describe-undescribed es fs cursors))))
