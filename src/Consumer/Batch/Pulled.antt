-- ===== src/Consumer/Batch/Pulled.antt =====
-- What is pulled of references into handles that hold sizes and then entries.
use mofka.Prelude.{
  length, replicate, length-append, length-replicate, take-append, drop-append, take-append_eq,
  drop-append_eq, take_all, All, concat, lengths, length-lengths, ltb, ◌==◌, Bool-cases, Bytes,
  IsU64, word, encode_words, length-encode_words, decode_words, decode_words-encode_words, returns,
  ℕ, zero, suc, ◌+◌, ◌*◌, ◌≡◌, refl, sym, ap, ◌∙◌, subst, inl, inr, false, List, [], ◌∷◌, ◌++◌,
  append-nil, append_assoc, arith,
}
use mofka.Rdma.{Rdma, BulkRef}
use mofka.Consumer.Batch.{pull_bulk_ref, write_at, split_batch, pull_from}

write_at-middle :
    (before old bytes after : Bytes) (offset : ℕ)
    → offset ≡ length before
    → length bytes ≡ length old
    → write_at offset bytes (before ++ (old ++ after)) ≡ before ++ (bytes ++ after)
unfolding write_at
write_at-middle before old bytes after offset e n = rw (
  take-append_eq offset before (old ++ after) e,
  ← append_assoc before old after,
  drop-append_eq (offset + length bytes) (before ++ old) after
      (omega (arith, length-append before old)),
)

is_nil {ℓ} : {A : Type ℓ} (xs : List A) → length xs ≡ 0 → xs ≡ []
is_nil [] h = refl
is_nil (x ∷ xs) h = ground arith

-- One transfer into its part of the local memory.
pull_bulk_ref-middle :
    (R : Rdma) (before old bytes after : Bytes) (offset : ℕ) (remote : BulkRef R.Bulk)
    → offset ≡ length before
    → length old ≡ remote.size
    → length bytes ≡ remote.size
    → R.transfer remote.handle remote.offset remote.size ≡ returns bytes
    → pull_bulk_ref R offset remote (before ++ (old ++ after))
      ≡ returns (before ++ (bytes ++ after))
unfolding pull_bulk_ref
pull_bulk_ref-middle R before old bytes after offset remote e n m t =
    elim (Bool-cases (remote.size == 0)) [
      | inl none_sent ↦
          let z : remote.size ≡ 0 = ground arith in
          rw none_sent (
            ap returns (
              ap (λ x. before ++ (x ++ after))
                (is_nil old (omega arith) ∙ sym (is_nil bytes (omega arith)))))
      | inr sent ↦
          let fits : ltb (length (before ++ (old ++ after))) (offset + remote.size) ≡ false =
            ground (arith, length-append before (old ++ after), length-append old after) in
          rw (sent, fits, t)
            (ap returns (write_at-middle before old bytes after offset e (omega arith)))
    ]

pull_bulk_ref-end :
    (R : Rdma) (before old bytes : Bytes) (offset : ℕ) (remote : BulkRef R.Bulk)
    → offset ≡ length before
    → length old ≡ remote.size
    → length bytes ≡ remote.size
    → R.transfer remote.handle remote.offset remote.size ≡ returns bytes
    → pull_bulk_ref R offset remote (before ++ old) ≡ returns (before ++ bytes)
pull_bulk_ref-end R before old bytes offset remote e n m t =
    ap (λ x. pull_bulk_ref R offset remote (before ++ x)) (sym (append-nil old))
    ∙ (pull_bulk_ref-middle R before old bytes [] offset remote e n m t
        ∙ ap (λ x. returns (before ++ x)) (append-nil bytes))

replicate-add {ℓ} :
    {A : Type ℓ} (m n : ℕ) (a : A) → replicate (m + n) a ≡ replicate m a ++ replicate n a
replicate-add zero n a = let e : 0 + n ≡ n = omega arith in rw e
replicate-add (suc m) n a =
    let e : suc m + n ≡ suc (m + n) = omega arith in rw e (ap (λ r. a ∷ r) (replicate-add m n a))

-- Memory that was just made.
abbrev zeros : ℕ → Bytes
zeros n = replicate n 0

zeros_lem : (k l m n : ℕ) → zeros (k + l + m + n) ≡ zeros k ++ (zeros l ++ (zeros m ++ zeros n))
zeros_lem k l m n =
    let z : ℕ = 0 in
    rw (replicate-add (k + l + m) n z, replicate-add (k + l) m z, replicate-add k l z)
      (simp append_assoc)

module _ (R : Rdma) where
  -- Four transfers that succeed fill the four parts.
  pub pull_from_lem :
      (count : ℕ) (ra rb rc rd : BulkRef R.Bulk) (a b c d : Bytes)
      → ra.size ≡ count * word
      → rc.size ≡ count * word
      → length a ≡ ra.size
      → length b ≡ rb.size
      → length c ≡ rc.size
      → length d ≡ rd.size
      → R.transfer ra.handle ra.offset ra.size ≡ returns a
      → R.transfer rb.handle rb.offset rb.size ≡ returns b
      → R.transfer rc.handle rc.offset rc.size ≡ returns c
      → R.transfer rd.handle rd.offset rd.size ≡ returns d
      → pull_from R count ra rb rc rd
        ≡ returns (split_batch count rb.size rd.size (a ++ (b ++ (c ++ d))))
  unfolding pull_from
  pull_from_lem count ra rb rc rd a b c d sa sc la lb lc ld ta tb tc td =
      let S = count * word in
      let zs = zeros S in
      let zm = zeros rb.size in
      let zd = zeros rd.size in
      let ns : length zs ≡ S = length-replicate S 0 in
      let nm : length zm ≡ rb.size = length-replicate rb.size 0 in
      let nd : length zd ≡ rd.size = length-replicate rd.size 0 in
      let e₁ : pull_bulk_ref R 0 ra (zs ++ (zm ++ (zs ++ zd))) ≡ returns (a ++ (zm ++ (zs ++ zd))) =
        pull_bulk_ref-middle R [] zs a (zm ++ (zs ++ zd)) 0 ra refl (omega arith) la ta in
      let e₂ : pull_bulk_ref R S rb (a ++ (zm ++ (zs ++ zd))) ≡ returns (a ++ (b ++ (zs ++ zd))) =
        pull_bulk_ref-middle R a zm b (zs ++ zd) S rb (omega arith) nm lb tb in
      let e₃ : pull_bulk_ref R (S + rb.size) rc (a ++ (b ++ (zs ++ zd)))
          ≡ returns (a ++ (b ++ (c ++ zd))) =
        rw (← append_assoc a b (zs ++ zd), ← append_assoc a b (c ++ zd))
          (pull_bulk_ref-middle R (a ++ b) zs c zd (S + rb.size) rc
            (omega (arith, length-append a b)) (omega arith) lc tc) in
      let e₄ : pull_bulk_ref R (S + rb.size + S) rd (a ++ (b ++ (c ++ zd)))
          ≡ returns (a ++ (b ++ (c ++ d))) =
        rw
          (
            ← append_assoc b c zd,
            ← append_assoc b c d,
            ← append_assoc a (b ++ c) zd,
            ← append_assoc a (b ++ c) d,
          )
          (pull_bulk_ref-end R (a ++ (b ++ c)) zd d (S + rb.size + S) rd
            (omega (arith, length-append a (b ++ c), length-append b c)) nd ld td) in
      rw (zeros_lem S rb.size S rd.size) (rw e₁ (rw e₂ (rw e₃ (rw e₄))))

-- The parts of a local memory that was filled with sizes and entries.
pub split_batch-packed :
    (ms descs : List Bytes)
    → length ms ≡ length descs
    → All IsU64 (lengths ms)
    → All IsU64 (lengths descs)
    → split_batch
        (length ms)
        (length (concat ms))
        (length (concat descs))
        (encode_words (lengths ms) ++ (concat ms ++ (encode_words (lengths descs) ++ concat descs)))
      ≡ record {
        meta_sizes = lengths ms;
        meta_buffer = concat ms;
        data_desc_sizes = lengths descs;
        data_desc_buffer = concat descs;
      }
unfolding split_batch
split_batch-packed ms descs e um ud =
    let sizes_end : length ms * word ≡ length (encode_words (lengths ms)) =
      omega (arith, length-encode_words (lengths ms), length-lengths ms) in
    let desc_sizes_end : length ms * word ≡ length (encode_words (lengths descs)) =
      omega (arith, length-encode_words (lengths descs), length-lengths descs) in
    let after_sizes = concat ms ++ (encode_words (lengths descs) ++ concat descs) in
    let sizes : decode_words (length ms) (encode_words (lengths ms) ++ after_sizes) ≡ lengths ms =
      subst (λ k. decode_words k (encode_words (lengths ms) ++ after_sizes) ≡ lengths ms)
        (length-lengths ms) (decode_words-encode_words (lengths ms) after_sizes um) in
    let desc_sizes : decode_words (length ms) (encode_words (lengths descs) ++ concat descs)
        ≡ lengths descs =
      subst (λ k. decode_words k (encode_words (lengths descs) ++ concat descs) ≡ lengths descs)
        (length-lengths descs ∙ sym e)
        (decode_words-encode_words (lengths descs) (concat descs) ud) in
    rw (
      drop-append_eq (length ms * word) (encode_words (lengths ms))
          (concat ms ++ (encode_words (lengths descs) ++ concat descs)) sizes_end,
      drop-append (concat ms) (encode_words (lengths descs) ++ concat descs),
      drop-append_eq (length ms * word) (encode_words (lengths descs)) (concat descs)
          desc_sizes_end,
      take-append (concat ms) (encode_words (lengths descs) ++ concat descs),
      take_all (length (concat descs)) (concat descs) (omega arith),
      sizes,
      desc_sizes,
    )
