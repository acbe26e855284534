-- ===== src/Producer/Batch/Sent.antt =====
-- The way of a batch from a producer to the log of a topic in memory.
use mofka.TopicManager.Packed.{packed, whole}
use mofka.Rdma.{Rdma, IsRdma, BulkRef}
use mofka.TopicManager.Memory.Receive.{receive_batch-append}
use mofka.TopicManager.Memory.{receive_batch}
use mofka.TopicManager.{Cursors}
use mofka.Prelude.{
  length, length-map, All, concat, lengths, ◌==◌, Bool-cases, Bytes, IsU64, encode_words, returns,
  ℕ, suc, ◌<◌, String, ◌≡◌, refl, sym, ap, ap₂, ◌∙◌, inl, inr, false, some, List, [], ◌∷◌, ◌++◌,
  map, append-nil, append_assoc, arith,
}
use mofka.TopicManager.Memory.Log.{Stored, metadatas, contents, topic_of}
use mofka.Producer.Batch.{
  Event, Segment, ProducerBatch, bytes_at, exposed, empty_batch, count, expose_metadata,
  expose_data, push, metadata_bulk_size, data_bulk_size,
}
use mofka.Producer.Batch.Contents.{
  push_all, push_all_lem, segment_sizes, serialized, all_segments, length-exposed, IsBatch,
  push-IsBatch, bulk_sizes,
}

exposed-append :
    (memory : ℕ → ℕ) (xs ys : List Segment)
    → exposed memory (xs ++ ys) ≡ exposed memory xs ++ exposed memory ys
unfolding exposed
exposed-append memory [] ys = refl
exposed-append memory (x ∷ xs) ys = elim (Bool-cases (x.size == 0)) [
  | inl skipped ↦ rw skipped (exposed-append memory xs ys)
  | inr sent ↦ rw sent (
      ap (λ r. bytes_at memory x.ptr x.size ++ r) (exposed-append memory xs ys)
      ∙ sym (append_assoc (bytes_at memory x.ptr x.size) (exposed memory xs) (exposed memory ys)))
]

module _ {M P : Type 0} (serialize : M → Bytes → Bytes)
    (appends : (m : M) (buffer : Bytes) → serialize m buffer ≡ buffer ++ serialize m [])
    (memory : ℕ → ℕ) where
  -- An event as its topic is to store it.
  abbrev pub stored : List (Event M P) → List Stored
  stored [] = []
  stored (e ∷ es) =
      record { metadata = serialize e.metadata []; content = exposed memory e.segments } ∷ stored es

  metadata_sizes :
      (es : List (Event M P))
      → map (λ e. length (serialize e.metadata [])) es ≡ lengths (metadatas (stored es))
  metadata_sizes [] = refl
  metadata_sizes (e ∷ es) = ap (λ r. length (serialize e.metadata []) ∷ r) (metadata_sizes es)

  metadata_content :
      (es : List (Event M P)) → serialized serialize appends es ≡ concat (metadatas (stored es))
  unfolding serialized
  metadata_content [] = refl
  metadata_content (e ∷ es) = ap (λ r. serialize e.metadata [] ++ r) (metadata_content es)

  data_sizes_lem :
      (es : List (Event M P))
      → map (λ e. segment_sizes e.segments) es ≡ lengths (contents (stored es))
  data_sizes_lem [] = refl
  data_sizes_lem (e ∷ es) =
      ap₂ (λ n r. n ∷ r) (sym (length-exposed memory e.segments)) (data_sizes_lem es)

  data_content :
      (es : List (Event M P))
      → exposed memory (all_segments serialize appends es) ≡ concat (contents (stored es))
  unfolding all_segments exposed
  data_content [] = refl
  data_content (e ∷ es) =
      exposed-append memory e.segments (all_segments serialize appends es)
      ∙ ap (λ r. exposed memory e.segments ++ r) (data_content es)

  -- The batch of some events.
  abbrev pub batch_of : List (Event M P) → ProducerBatch P
  batch_of es = push_all serialize appends es empty_batch

  pub counted : (es : List (Event M P)) → count (batch_of es) ≡ length es
  unfolding count empty_batch
  counted es =
      ap length ((push_all_lem serialize appends es empty_batch).0)
      ∙ length-map (λ e. length (serialize e.metadata [])) es

  pub metadata_packed :
      (es : List (Event M P))
      → 0 < length es
      → expose_metadata (batch_of es) ≡ packed (metadatas (stored es))
  unfolding expose_metadata empty_batch
  metadata_packed es h =
      let (ms, mb, ds, sg, ps) = push_all_lem serialize appends es empty_batch in
      let some_there : (count (batch_of es) == 0) ≡ false = ground (arith, counted es) in
      rw some_there
        (ap₂ (λ x y. encode_words x ++ y) (ms ∙ metadata_sizes es) (mb ∙ metadata_content es))

  pub data_packed :
      (es : List (Event M P))
      → 0 < length es
      → expose_data memory (batch_of es) ≡ packed (contents (stored es))
  unfolding expose_data empty_batch
  data_packed es h =
      let (ms, mb, ds, sg, ps) = push_all_lem serialize appends es empty_batch in
      let some_there : (count (batch_of es) == 0) ≡ false = ground (arith, counted es) in
      rw some_there (
        ap₂ (λ x y. encode_words x ++ y) (ds ∙ data_sizes_lem es)
          (ap (exposed memory) sg ∙ data_content es))

  push_all-IsBatch :
      (es : List (Event M P)) (b : ProducerBatch P)
      → IsBatch b
      → IsBatch (push_all serialize appends es b)
  unfolding push_all
  push_all-IsBatch [] b v = v
  push_all-IsBatch (e ∷ es) b v =
      push_all-IsBatch es (push serialize e b) (push-IsBatch serialize appends e b v)

  empty-IsBatch : IsBatch (empty_batch {P = P})
  unfolding empty_batch
  empty-IsBatch = record {
    data_counted = refl;
    promises_counted = refl;
    meta_sized = refl;
    data_sized = refl;
    segments_sized = refl;
  }

  pub length-stored : (es : List (Event M P)) → length (stored es) ≡ length es
  length-stored [] = refl
  length-stored (e ∷ es) = ap suc (length-stored es)

  -- The references to the metadata and the data of the batch, which a producer sends.
  abbrev pub metadata_reference : (R : Rdma) → List (Event M P) → String → BulkRef R.Bulk
  metadata_reference R es address = record {
    handle = R.expose (expose_metadata (batch_of es) ∷ []);
    offset = 0;
    size = metadata_bulk_size (batch_of es);
    address = address;
  }

  abbrev pub data_reference : (R : Rdma) → List (Event M P) → String → BulkRef R.Bulk
  data_reference R es address = record {
    handle = R.expose (expose_data memory (batch_of es) ∷ []);
    offset = 0;
    size = data_bulk_size (batch_of es);
    address = address;
  }

  sent_sizes :
      (es : List (Event M P))
      → 0 < length es
      → (metadata_bulk_size (batch_of es) ≡ length (expose_metadata (batch_of es) ++ []))
        × (data_bulk_size (batch_of es) ≡ length (expose_data memory (batch_of es) ++ []))
  sent_sizes es h =
      let b = batch_of es in
      let valid = push_all-IsBatch es empty_batch empty-IsBatch in
      let (ms, ds) = bulk_sizes memory b valid (omega (arith, counted es)) in
      (
        sym ms ∙ ap length (sym (append-nil (expose_metadata b))),
        sym ds ∙ ap length (sym (append-nil (expose_data memory b))),
      )

  -- They refer to all that is exposed.
  pub metadata_reference-whole :
      (R : Rdma) (es : List (Event M P)) (address : String)
      → 0 < length es
      → metadata_reference R es address ≡ whole R (expose_metadata (batch_of es) ∷ []) address
  metadata_reference-whole R es address h = rw ((sent_sizes es h).0) refl

  pub data_reference-whole :
      (R : Rdma) (es : List (Event M P)) (address : String)
      → 0 < length es
      → data_reference R es address ≡ whole R (expose_data memory (batch_of es) ∷ []) address
  data_reference-whole R es address h = rw ((sent_sizes es h).1) refl

  -- What a producer sends of the batch of some events, at least one, is appended to the log of the
  -- topic: the answer is the number of events before, and the log has, behind them, the events in
  -- the order of the pushes, each with its serialized metadata and with the bytes of its segments.
  -- The serializer appends to its archive, transfers within what is exposed succeed, and the sizes of
  -- the metadata and data fit into 64 bits.
  pub receive_batch-batch_of :
      (R : Rdma) (log : List Stored) (cursors : Cursors) (es : List (Event M P)) (address : String)
      → IsRdma R
      → 0 < length es
      → All IsU64 (lengths (metadatas (stored es)))
      → All IsU64 (lengths (contents (stored es)))
      → receive_batch R
          (count (batch_of es))
          (metadata_reference R es address)
          (data_reference R es address)
          (topic_of log cursors)
        ≡ some (returns (length log), topic_of (log ++ stored es) cursors)
  receive_batch-batch_of R log cursors es address law h um ud =
      let m = expose_metadata (batch_of es) in
      let d = expose_data memory (batch_of es) in
      rw
        (
          metadata_reference-whole R es address h,
          data_reference-whole R es address h,
          counted es ∙ sym (length-stored es),
        )
        (receive_batch-append R log (stored es) cursors (m ∷ []) (d ∷ []) address law
          (append-nil m ∙ metadata_packed es h) (append-nil d ∙ data_packed es h) um ud)
