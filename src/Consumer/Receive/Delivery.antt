-- ===== src/Consumer/Receive/Delivery.antt =====
-- What a consumer receives of the references that a topic feeds it.
use mofka.TopicManager.{fed_of}
use mofka.Consumer.Batch.{pull_from}
use mofka.Rdma.{Rdma, IsRdma}
use mofka.Prelude.{
  length, length-append, take-append, take-append_eq, drop-append_eq, sum, All, concat, lengths,
  length-concat, length-lengths, leb, Bytes, IsU64, word, encode_words, length-encode_words,
  returns, ℕ, ◌+◌, ◌*◌, ◌%◌, ◌^◌, ◌≤◌, String, ◌≡◌, refl, sym, ap, ◌∙◌, true, some, List, [], ◌∷◌,
  ◌++◌, append-nil, append_assoc, arith,
}
use mofka.Consumer.Batch.Pulled.{pull_from_lem, split_batch-packed}
use mofka.Consumer.Receive.{Arrival, arrivals, view, arrive, recv_batch}

view-middle :
    (before x after : Bytes) (offset : ℕ)
    → offset ≡ length before
    → view offset (length x) (before ++ (x ++ after)) ≡ some x
unfolding view
view-middle before x after offset e =
    let inside : leb (offset + length x) (length (before ++ (x ++ after))) ≡ true =
      ground (arith, length-append before (x ++ after), length-append x after) in
    rw inside (rw (drop-append_eq offset before (x ++ after) e, take-append x after))

-- The events of two lists of entries, with ids that count up from the first.
abbrev pub numbered : ℕ → List Bytes → List Bytes → List Arrival
numbered id (m ∷ ms) (d ∷ ds) =
    record { event_id = id; metadata = m; descriptor = d } ∷ numbered ((id + 1) % 2 ^ 64) ms ds
numbered id _ _ = []

arrivals_lem :
    (id moff doff : ℕ) (mbefore dbefore : Bytes) (ms ds : List Bytes) (xs ys : List ℕ)
    → moff ≡ length mbefore
    → doff ≡ length dbefore
    → length ms ≡ length ds
    → arrivals id moff doff (lengths ms) (lengths ds) (record {
      meta_sizes = xs;
      meta_buffer = mbefore ++ concat ms;
      data_desc_sizes = ys;
      data_desc_buffer = dbefore ++ concat ds;
    })
      ≡ some (numbered id ms ds)
unfolding arrivals
arrivals_lem id moff doff mbefore dbefore [] ds xs ys em ed e = refl
arrivals_lem id moff doff mbefore dbefore (m ∷ ms) [] xs ys em ed e = refl
arrivals_lem id moff doff mbefore dbefore (m ∷ ms) (d ∷ ds) xs ys em ed e =
    let next =
      arrivals_lem ((id + 1) % 2 ^ 64) (moff + length m) (doff + length d) (mbefore ++ m)
        (dbefore ++ d) ms ds xs ys (omega (arith, length-append mbefore m))
        (omega (arith, length-append dbefore d)) (omega arith) in
    rw
      (
        view-middle mbefore m (concat ms) moff em,
        view-middle dbefore d (concat ds) doff ed,
        ← append_assoc mbefore m (concat ms),
        ← append_assoc dbefore d (concat ds),
      )
      (rw next (unfold arrive in refl))

module _ (R : Rdma) where
  transfer_part :
      (segments : List Bytes) (before part after : Bytes) (offset size : ℕ)
      → IsRdma R
      → concat segments ≡ before ++ (part ++ after)
      → offset ≡ length before
      → size ≡ length part
      → R.transfer (R.expose segments) offset size ≡ returns part
  transfer_part segments before part after offset size law e eo es =
      let fits : offset + size ≤ length (concat segments) =
        omega
          (arith, ap length e, length-append before (part ++ after), length-append part after) in
      law segments offset size fits
      ∙ ap returns (
          rw (e, drop-append_eq offset before (part ++ after) eo)
            (take-append_eq size part after es))

  -- The sizes in a handle, and the entries behind them.
  transfer_sizes :
      (xs : List Bytes) (num : ℕ)
      → IsRdma R
      → num ≡ length xs
      → R.transfer (R.expose (encode_words (lengths xs) ∷ concat xs ∷ [])) 0 (num * word)
        ≡ returns (encode_words (lengths xs))
  transfer_sizes xs num law e =
      transfer_part (encode_words (lengths xs) ∷ concat xs ∷ []) [] (encode_words (lengths xs))
        (concat xs) 0 (num * word) law (rw (append-nil (concat xs))) refl
        (omega (arith, length-encode_words (lengths xs), length-lengths xs))

  transfer_entries :
      (xs : List Bytes) (num : ℕ)
      → IsRdma R
      → num ≡ length xs
      → R.transfer
          (R.expose (encode_words (lengths xs) ∷ concat xs ∷ []))
          (num * word)
          (sum (lengths xs))
        ≡ returns (concat xs)
  transfer_entries xs num law e =
      transfer_part (encode_words (lengths xs) ∷ concat xs ∷ []) (encode_words (lengths xs))
        (concat xs) [] (num * word) (sum (lengths xs)) law refl
        (omega (arith, length-encode_words (lengths xs), length-lengths xs))
        (sym (length-concat xs))

  -- A consumer that is fed references to metadata and as many descriptors gets each of them,
  -- under the ids from the first on. Transfers within what is exposed succeed, and the sizes of
  -- the entries fit into 64 bits.
  pub recv_batch-fed_of :
      (first_id : ℕ) (ms descs : List Bytes) (address : String)
      → IsRdma R
      → length ms ≡ length descs
      → All IsU64 (lengths ms)
      → All IsU64 (lengths descs)
      → recv_batch R (fed_of R first_id ms descs address)
        ≡ returns (some (numbered first_id ms descs))
  unfolding recv_batch
  recv_batch-fed_of first_id ms descs address law e um ud =
      let fed = fed_of R first_id ms descs address in
      let pulled : pull_from R (length ms) fed.metadata_sizes fed.metadata fed.data_desc_sizes
            fed.data_desc
          ≡ returns (record {
            meta_sizes = lengths ms;
            meta_buffer = concat ms;
            data_desc_sizes = lengths descs;
            data_desc_buffer = concat descs;
          }) =
        pull_from_lem R (length ms) fed.metadata_sizes fed.metadata fed.data_desc_sizes
          fed.data_desc (encode_words (lengths ms)) (concat ms) (encode_words (lengths descs))
          (concat descs) refl refl
          (omega (arith, length-encode_words (lengths ms), length-lengths ms)) (length-concat ms)
          (omega (arith, length-encode_words (lengths descs), length-lengths descs))
          (length-concat descs) (transfer_sizes ms (length ms) law refl)
          (transfer_entries ms (length ms) law refl) (transfer_sizes descs (length ms) law e)
          (transfer_entries descs (length ms) law e)
        ∙ ap returns (
            rw (← length-concat ms, ← length-concat descs) (split_batch-packed ms descs e um ud)) in
      rw pulled (
        ap returns
          (arrivals_lem first_id 0 0 [] [] ms descs (lengths ms) (lengths descs) refl refl e))
