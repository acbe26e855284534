-- ===== src/TopicManager/Packed.antt =====
-- Bulk handles as producers expose them: sizes, and then the entries.
use mofka.Prelude.{
  length, drop, resize, length-append, drop-append_eq, take_all, sum, All, concat, lengths,
  lengths-append, length-concat, length-lengths, Bytes, IsU64, word, encode_words,
  length-encode_words, decode_words, decode_words-encode_words, returns, ℕ, ◌-◌, ◌*◌, ◌≤◌, String,
  ◌≡◌, ap, ◌∙◌, List, [], ◌∷◌, ◌++◌, append-nil, arith,
}
use mofka.Rdma.{Rdma, IsRdma, BulkRef}
use mofka.TopicManager.{offsets_from, offsets_from-append}

-- The content of a bulk handle of sizes and of what they are the sizes of.
abbrev pub packed : List Bytes → Bytes
packed xs = encode_words (lengths xs) ++ concat xs

pub packed-sizes :
    (xs : List Bytes) → All IsU64 (lengths xs) → decode_words (length xs) (packed xs) ≡ lengths xs
packed-sizes xs h = rw (← length-lengths xs) (decode_words-encode_words (lengths xs) (concat xs) h)

pub packed-content : (xs : List Bytes) → drop (length xs * word) (packed xs) ≡ concat xs
packed-content xs =
    drop-append_eq (length xs * word) (encode_words (lengths xs)) (concat xs)
      (omega (arith, length-encode_words (lengths xs), length-lengths xs))

pub length-packed : (xs : List Bytes) → length xs * word ≤ length (packed xs)
length-packed xs = omega (
  arith,
  length-append (encode_words (lengths xs)) (concat xs),
  length-encode_words (lengths xs),
  length-lengths xs,
)

-- A whole handle arrives.
pub transfer_all :
    (R : Rdma) (segments : List Bytes)
    → IsRdma R
    → R.transfer (R.expose segments) 0 (length (concat segments)) ≡ returns (concat segments)
transfer_all R segments law =
    law segments 0 (length (concat segments)) (omega arith)
    ∙ ap returns (take_all (length (concat segments)) (concat segments) (omega arith))

pub offsets-concat :
    (xs ys : List Bytes)
    → offsets_from 0 (lengths (xs ++ ys))
      ≡ offsets_from 0 (lengths xs) ++ offsets_from (length (concat xs)) (lengths ys)
offsets-concat xs ys =
    rw (lengths-append xs ys, length-concat xs)
      (offsets_from-append 0 (lengths xs) (lengths ys)
        ∙ ap (λ n. offsets_from 0 (lengths xs) ++ offsets_from n (lengths ys)) (omega arith))

pub offsets-sum :
    (xs ys : List Bytes)
    → offsets_from 0 (lengths (xs ++ ys))
      ≡ offsets_from 0 (lengths xs) ++ offsets_from (sum (lengths xs)) (lengths ys)
offsets-sum xs ys =
    offsets-concat xs ys
    ∙ ap (λ n. offsets_from 0 (lengths xs) ++ offsets_from n (lengths ys)) (length-concat xs)

pub resize_self {ℓ} :
    {A : Type ℓ} (n : ℕ) (a : A) (xs : List A) → n ≡ length xs → resize n a xs ≡ xs
resize_self n a xs e =
    let none_left : n - length xs ≡ 0 = omega arith in
    rw (take_all n xs (omega arith), none_left) (append-nil xs)

-- A reference to all that was exposed.
abbrev pub whole : (R : Rdma) → List Bytes → String → BulkRef R.Bulk
whole R segments address = record {
  handle = R.expose segments;
  offset = 0;
  size = length (concat segments);
  address = address;
}

-- The sizes of entries that together fit into 64 bits.
pub sizes_fit : (xs : List Bytes) → IsU64 (length (concat xs)) → All IsU64 (lengths xs)
sizes_fit [] u = tt
sizes_fit (x ∷ xs) u =
    let total = length-append x (concat xs) in
    (omega (arith, total), sizes_fit xs (omega (arith, total)))
