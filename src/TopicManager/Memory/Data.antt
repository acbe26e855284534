-- ===== src/TopicManager/Memory/Data.antt =====
-- The data of an event is found by the descriptor that its consumers are sent.
use mofka.Prelude.{
  length, get_elem?, take-append, drop-append, take-append_eq, drop-append_eq, take_all, sum,
  concat, lengths, concat-append, length-concat, IsU64, word, encode_u64, length-encode_u64,
  decode_u64-encode_u64, returns, ℕ, ◌+◌, ◌≡◌, sym, ap, ◌∙◌, some, List, [], ◌∷◌, ◌++◌, arith,
}
use mofka.Descriptor.{save, DataDescriptor}
use mofka.TopicManager.{Cursors}
use mofka.TopicManager.Memory.{get_data, offset_size_string, offset_of, size_of}
use mofka.TopicManager.Memory.Log.{
  Stored, contents, described, descriptors, topic_of, contents-append,
}

offset_of-described : (offset size : ℕ) → IsU64 offset → offset_of (described offset size) ≡ offset
unfolding offset_of offset_size_string
offset_of-described offset size h =
    rw (take-append_eq word (encode_u64 offset) (encode_u64 size) (sym (length-encode_u64 offset)))
      (decode_u64-encode_u64 offset h)

size_of-described : (offset size : ℕ) → IsU64 size → size_of (described offset size) ≡ size
unfolding size_of offset_size_string
size_of-described offset size h =
    rw (drop-append_eq word (encode_u64 offset) (encode_u64 size) (sym (length-encode_u64 offset)))
      (rw (take_all word (encode_u64 size) (omega (arith, length-encode_u64 size)))
        (decode_u64-encode_u64 size h))

-- The descriptor of the data behind that of the events `es`.
pub get_elem?-descriptors :
    (offset : ℕ) (es fs : List Stored) (e : Stored)
    → get_elem? (descriptors offset (lengths (contents (es ++ (e ∷ fs))))) (length es)
      ≡ some (save [] (described (offset + sum (lengths (contents es))) (length e.content)))
unfolding descriptors
get_elem?-descriptors offset [] fs e = let z : offset + 0 ≡ offset = omega arith in rw z
get_elem?-descriptors offset (x ∷ es) fs e =
    let z : offset + (length x.content + sum (lengths (contents es)))
        ≡ offset + length x.content + sum (lengths (contents es)) =
      omega arith in
    rw z (get_elem?-descriptors (offset + length x.content) es fs e)

pub get_data-described :
    (es fs : List Stored) (e : Stored) (cursors : Cursors)
    → IsU64 (sum (lengths (contents es)))
    → IsU64 (length e.content)
    → get_data
        (described (sum (lengths (contents es))) (length e.content) ∷ [])
        (topic_of (es ++ (e ∷ fs)) cursors)
      ≡ some (e.content, returns 1)
unfolding get_data topic_of
get_data-described es fs e cursors ho hs = rw (
  offset_of-described (sum (lengths (contents es))) (length e.content) ho,
  size_of-described (sum (lengths (contents es))) (length e.content) hs,
  contents-append es (e ∷ fs),
  concat-append (contents es) (e.content ∷ contents fs),
  ← length-concat (contents es),
  drop-append (concat (contents es)) (e.content ++ concat (contents fs)),
  take-append e.content (concat (contents fs)),
)

-- The event after the events `es` of a log has a saved descriptor at its position, and the data
-- that this descriptor gets are those of the event. The size of its data and the sum of the
-- sizes of those before fit into 64 bits.
pub get_data-topic_of :
    (es fs : List Stored) (e : Stored) (cursors : Cursors)
    → IsU64 (sum (lengths (contents es)))
    → IsU64 (length e.content)
    → (d : DataDescriptor) × (get_elem?
          (descriptors 0 (lengths (contents (es ++ (e ∷ fs)))))
          (length es)
        ≡ some (save [] d))
      × (get_data (d ∷ []) (topic_of (es ++ (e ∷ fs)) cursors) ≡ some (e.content, returns 1))
get_data-topic_of es fs e cursors ho hs =
    let z : 0 + sum (lengths (contents es)) ≡ sum (lengths (contents es)) = omega arith in
    (
      described (sum (lengths (contents es))) (length e.content),
      get_elem?-descriptors 0 es fs e ∙ ap (λ o. some (save [] (described o (length e.content)))) z,
      get_data-described es fs e cursors ho hs,
    )
