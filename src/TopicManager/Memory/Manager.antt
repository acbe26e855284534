-- ===== src/TopicManager/Memory/Manager.antt =====
-- The topic in memory keeps to the interface of topic managers.
use mofka.TopicManager.Memory.Feed.{
  metadatas-drop, metadatas-take, feed_once-topic_of, feed_once_waits, feed_consumer-feed_loop,
}
use mofka.TopicManager.Memory.Receive.{receive_batch-append}
use mofka.TopicManager.Packed.{packed, whole, sizes_fit}
use mofka.Prelude.{
  Outcome, length, take, drop, length-append, take_all, sum, All, concat, lengths, lengths-append,
  length-lengths, Bytes, IsU64, encode_words, returns, throws, ℕ, ◌+◌, ◌-◌, ◌%◌, ◌^◌, ◌≤◌, ◌<◌, min,
  String, ◌≡◌, refl, sym, ap, ap₂, ◌∙◌, subst, Option, none, some, List, [], ◌∷◌, ◌++◌, arith,
}
use mofka.Rdma.{Rdma, IsRdma}
use mofka.TopicManager.{Cursors, cursor_of-set_cursor, fed_of, set_cursor}
use mofka.TopicManager.Interface.{TopicManager, IsTopicManager}
use mofka.TopicManager.Memory.{MemoryTopic, receive_batch, feed_once, acknowledge, feed_consumer}
use mofka.TopicManager.Memory.Log.{
  Stored, topic_of, metadatas, contents, descriptors, contents-append, length-metadatas,
  length-contents, descriptors-append, length-descriptors, metadatas-append, descriptors-IsU64,
}

-- The answers of the topic in memory, of which none is an error.
abbrev no_error : Option (Outcome ℕ × MemoryTopic) → Option (Outcome (Outcome ℕ) × MemoryTopic)
no_error none = none
no_error (some (returns first_id, t)) = some (returns (returns first_id), t)
no_error (some (throws what, t)) = some (throws what, t)

abbrev pub memory_manager : (R : Rdma) → TopicManager R
memory_manager R = record {
  Topic = MemoryTopic;
  receive_batch = λ num_events metadata_bulk data_bulk t.
      no_error (receive_batch R num_events metadata_bulk data_bulk t);
  feed_once = λ batch_size first_id self_addr t. feed_once R batch_size first_id self_addr t;
  feed_consumer = feed_consumer R;
  acknowledge = acknowledge;
  consumer_cursor = λ t. t.consumer_cursor;
}

-- The saved descriptors of a log.
abbrev pub descs_of : List Stored → List Bytes
descs_of es = descriptors 0 (lengths (contents es))

abbrev pub MemoryLog : (ms descs : List Bytes) → MemoryTopic → Type 0
MemoryLog ms descs t =
    (es : List Stored) × (cursors : Cursors) × (metadatas es ≡ ms)
    × (descs_of es ≡ descs)
    × (topic_of es cursors ≡ t)

-- Events of given metadata and data.
abbrev stored_of : List Bytes → List Bytes → List Stored
stored_of (n ∷ ns) (x ∷ xs) = record { metadata = n; content = x } ∷ stored_of ns xs
stored_of _ _ = []

metadatas-stored_of :
    (ns xs : List Bytes) → length ns ≡ length xs → metadatas (stored_of ns xs) ≡ ns
metadatas-stored_of [] xs e = refl
metadatas-stored_of (n ∷ ns) [] e = let h : 1 ≤ 0 = omega (arith, e) in elim h [ ]
metadatas-stored_of (n ∷ ns) (x ∷ xs) e =
    ap (λ r. n ∷ r) (metadatas-stored_of ns xs (omega (arith, e)))

contents-stored_of : (ns xs : List Bytes) → length ns ≡ length xs → contents (stored_of ns xs) ≡ xs
contents-stored_of [] [] e = refl
contents-stored_of [] (x ∷ xs) e = let h : 1 ≤ 0 = omega (arith, e) in elim h [ ]
contents-stored_of (n ∷ ns) [] e = let h : 1 ≤ 0 = omega (arith, e) in elim h [ ]
contents-stored_of (n ∷ ns) (x ∷ xs) e =
    ap (λ r. x ∷ r) (contents-stored_of ns xs (omega (arith, e)))

stored_of-count :
    (ns xs : List Bytes) → length ns ≡ length xs → length ns ≡ length (stored_of ns xs)
stored_of-count ns xs e =
    sym (ap length (metadatas-stored_of ns xs e)) ∙ length-metadatas (stored_of ns xs)

descs_of-append :
    (es fs : List Stored)
    → descs_of (es ++ fs)
      ≡ descs_of es ++ descriptors (sum (lengths (contents es))) (lengths (contents fs))
descs_of-append es fs =
    rw (contents-append es fs, lengths-append (contents es) (contents fs))
      (descriptors-append 0 (lengths (contents es)) (lengths (contents fs))
        ∙ ap (λ n. descs_of es ++ descriptors n (lengths (contents fs))) (omega arith))

length-descs_of : (es : List Stored) → length es ≡ length (descs_of es)
length-descs_of es = omega (
  arith,
  length-descriptors 0 (lengths (contents es)),
  length-lengths (contents es),
  length-contents es,
)

module _ (R : Rdma) where
  receives_lem :
      (es : List Stored) (cursors : Cursors) (ns xs metadata_segments data_segments : List Bytes)
      (address : String)
      → IsRdma R
      → concat metadata_segments ≡ packed ns
      → concat data_segments ≡ packed xs
      → length ns ≡ length xs
      → All IsU64 (lengths ns)
      → IsU64 (length (packed xs))
      → receive_batch R
          (length ns)
          (whole R metadata_segments address)
          (whole R data_segments address)
          (topic_of es cursors)
        ≡ some (returns (length es), topic_of (es ++ stored_of ns xs) cursors)
  receives_lem es cursors ns xs msegs dsegs address law em ex e un ux =
      let fs = stored_of ns xs in
      let small : IsU64 (length (concat xs)) =
        omega (arith, length-append (encode_words (lengths xs)) (concat xs)) in
      rw (stored_of-count ns xs e) (
        receive_batch-append R es fs cursors msegs dsegs address law
          (rw (metadatas-stored_of ns xs e) em) (rw (contents-stored_of ns xs e) ex)
          (rw (metadatas-stored_of ns xs e) un)
          (rw (contents-stored_of ns xs e) (sizes_fit xs small)))

  count_of : (es : List Stored) (ms : List Bytes) → metadatas es ≡ ms → length es ≡ length ms
  count_of es ms m = sym (length-metadatas es) ∙ ap length m

  feeds_lem :
      (batch_size first_id num : ℕ) (address : String) (es : List Stored) (cursors : Cursors)
      → 1 ≤ batch_size
      → first_id < length es
      → IsU64 (length es)
      → num ≡ min batch_size (length es - first_id)
      → feed_once R batch_size first_id address (topic_of es cursors)
        ≡ some (
            fed_of R first_id
              (take num (drop first_id (metadatas es)))
              (take num (drop first_id (descs_of es)))
              address)
  feeds_lem batch_size first_id num address es cursors b f u n =
      rw (n, ← metadatas-drop first_id es)
        (rw (← metadatas-take (min batch_size (length es - first_id)) (drop first_id es))
          (feed_once-topic_of R batch_size first_id address es cursors b f u))

  -- The topic in memory keeps to the interface, if transfers within what is exposed succeed.
  pub memory_manager-IsTopicManager : IsRdma R → IsTopicManager R (memory_manager R) MemoryLog
  unfolding acknowledge topic_of
  memory_manager-IsTopicManager law = record {
    is_paired = λ ms descs t (es, cursors, m, d, st).
        omega (arith, sym (ap length m), length-metadatas es, length-descs_of es, ap length d);
    is_small = λ ms descs t (es, cursors, m, d, st).
        let n = length (descs_of es) in
        subst (λ ds. All IsU64 (lengths ds)) (take_all n (descs_of es) (omega arith) ∙ d)
          (descriptors-IsU64 n 0 0 (lengths (contents es)));
    receives = λ ms descs ns xs msegs dsegs address t (es, cursors, m, d, st) em ex e un ux.
        let fs = stored_of ns xs in
        let ds = descriptors (sum (lengths (contents es))) (lengths (contents fs)) in
        (
          ds,
          topic_of (es ++ fs) cursors,
          ap no_error (
              subst
                (λ u.
                  receive_batch R (length ns) (whole R msegs address) (whole R dsegs address) u
                  ≡ some (returns (length ms), topic_of (es ++ fs) cursors))
                st
                (receives_lem es cursors ns xs msegs dsegs address law em ex e un ux
                  ∙ ap (λ n. some (returns n, topic_of (es ++ fs) cursors)) (count_of es ms m))),
          omega (
            arith,
            length-descriptors (sum (lengths (contents es))) (lengths (contents fs)),
            length-lengths (contents fs),
            length-contents fs,
            stored_of-count ns xs e,
          ),
          (
            es ++ fs,
            cursors,
            metadatas-append es fs ∙ ap₂ (λ xs ys. xs ++ ys) m (metadatas-stored_of ns xs e),
            descs_of-append es fs ∙ ap (λ old. old ++ ds) d,
            refl,
          ),
        );
    feeds = λ batch_size first_id num address ms descs t (es, cursors, m, d, st) b f u n.
        let count = count_of es ms m in
        let fed =
          feeds_lem batch_size first_id num address es cursors b (omega arith) (omega arith)
            (n ∙ ap (λ k. min batch_size (k - first_id)) (sym count)) in
        rw (← st, ← m, ← d) fed;
    waits = λ batch_size address ms descs t (es, cursors, m, d, st).
        rw (← st, ← count_of es ms m) (feed_once_waits R batch_size address es cursors);
    loops = feed_consumer-feed_loop R;
    acknowledges = λ name id ms descs t (es, cursors, m, d, st).
        (es, set_cursor name ((id + 1) % 2 ^ 64) cursors, m, d, ap (λ u. acknowledge name id u) st);
    moves = λ name n id t. cursor_of-set_cursor name n ((id + 1) % 2 ^ 64) t.consumer_cursor;
  }
