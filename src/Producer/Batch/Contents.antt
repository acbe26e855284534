-- ===== src/Producer/Batch/Contents.antt =====
-- What a batch holds after a series of pushes.
use mofka.Prelude.{
  length, length-append, sum, sum-append, Bytes, encode_words, length-encode_words, ℕ, zero, suc,
  ◌+◌, ◌-◌, ◌<◌, ◌≡◌, refl, sym, ap, ◌∙◌, subst, List, [], ◌∷◌, ◌++◌, map, append-nil, append_assoc,
  arith,
}
use mofka.Producer.Batch.{
  Event, Segment, ProducerBatch, add_segments, push, bytes_at, exposed, count, expose_metadata,
  expose_data, metadata_bulk_size, data_bulk_size,
}

-- The counts and sizes of a batch fit together.
pub record IsBatch {P : Type 0} (b : ProducerBatch P) : Type 0 where
  pub data_counted : length b.data_sizes ≡ length b.meta_sizes
  pub promises_counted : length b.promises ≡ length b.meta_sizes
  pub meta_sized : sum b.meta_sizes ≡ length b.meta_buffer
  pub data_sized : sum b.data_sizes ≡ b.total_data_size
  pub segments_sized : sum (map (λ s. s.size) b.data_segments) ≡ b.total_data_size

abbrev pub segment_sizes : List Segment → ℕ
segment_sizes ss = sum (map (λ s. s.size) ss)

segment_sizes-append :
    (xs ys : List Segment) → segment_sizes (xs ++ ys) ≡ segment_sizes xs + segment_sizes ys
segment_sizes-append [] ys = omega arith
segment_sizes-append (x ∷ xs) ys = omega (arith, segment_sizes-append xs ys)

add_segments_lem :
    (ss segments : List Segment) (n : ℕ)
    → ((add_segments ss segments n).0 ≡ segments ++ ss)
      × ((add_segments ss segments n).1 ≡ n + segment_sizes ss)
unfolding add_segments
add_segments_lem [] segments n = (sym (append-nil segments), omega arith)
add_segments_lem (s ∷ ss) segments n =
    let (all, size) = add_segments_lem ss (segments ++ (s ∷ [])) (n + s.size) in
    (all ∙ append_assoc segments (s ∷ []) ss, omega arith)

module _ {M P : Type 0} (serialize : M → Bytes → Bytes)
    -- A serializer appends to the archive.
    (appends : (m : M) (buffer : Bytes) → serialize m buffer ≡ buffer ++ serialize m []) where
  -- Every field of the batch after a push, in terms of the event.
  pub push_lem :
      (e : Event M P) (b : ProducerBatch P)
      → push serialize e b ≡ record {
        meta_sizes = b.meta_sizes ++ (length (serialize e.metadata []) ∷ []);
        meta_buffer = b.meta_buffer ++ serialize e.metadata [];
        data_sizes = b.data_sizes ++ (segment_sizes e.segments ∷ []);
        data_segments = b.data_segments ++ e.segments;
        total_data_size = b.total_data_size + segment_sizes e.segments;
        promises = b.promises ++ (e.promise ∷ []);
      }
  unfolding push
  push_lem e b =
      let (all, size) = add_segments_lem e.segments b.data_segments 0 in
      let size' : (add_segments e.segments b.data_segments 0).1 ≡ segment_sizes e.segments =
        omega arith in
      let meta : length (b.meta_buffer ++ serialize e.metadata []) - length b.meta_buffer
          ≡ length (serialize e.metadata []) =
        omega (arith, length-append b.meta_buffer (serialize e.metadata [])) in
      rw (appends e.metadata b.meta_buffer, meta, all, size')

  -- A push to a batch whose counts and sizes belong together leaves them so. The serializer
  -- appends to its archive.
  pub push-IsBatch :
      (e : Event M P) (b : ProducerBatch P) → IsBatch b → IsBatch (push serialize e b)
  push-IsBatch e b v =
      let meta = serialize e.metadata [] in
      let size = segment_sizes e.segments in
      subst IsBatch (sym (push_lem e b)) (record {
        data_counted = omega (
          arith,
          length-append b.data_sizes (size ∷ []),
          length-append b.meta_sizes (length meta ∷ []),
          v.data_counted,
        );
        promises_counted = omega (
          arith,
          length-append b.promises (e.promise ∷ []),
          length-append b.meta_sizes (length meta ∷ []),
          v.promises_counted,
        );
        meta_sized = omega (
          arith,
          sum-append b.meta_sizes (length meta ∷ []),
          length-append b.meta_buffer meta,
          v.meta_sized,
        );
        data_sized = omega (arith, sum-append b.data_sizes (size ∷ []), v.data_sized);
        segments_sized =
            omega (arith, segment_sizes-append b.data_segments e.segments, v.segments_sized);
      })

  -- The events that are pushed one after the other.
  unfoldable pub push_all : List (Event M P) → ProducerBatch P → ProducerBatch P
  push_all [] b = b
  push_all (e ∷ es) b = push_all es (push serialize e b)

  unfoldable pub serialized : List (Event M P) → Bytes
  serialized [] = []
  serialized (e ∷ es) = serialize e.metadata [] ++ serialized es

  unfoldable pub all_segments : List (Event M P) → List Segment
  all_segments [] = []
  all_segments (e ∷ es) = e.segments ++ all_segments es

  -- What pushes add to a batch is told by their events: sizes and promises in their order, and
  -- their bytes and segments one behind the other. The serializer appends to its archive.
  pub push_all_lem :
      (es : List (Event M P)) (b : ProducerBatch P)
      → ((push_all es b).meta_sizes
          ≡ b.meta_sizes ++ map (λ e. length (serialize e.metadata [])) es)
        × ((push_all es b).meta_buffer ≡ b.meta_buffer ++ serialized es)
        × ((push_all es b).data_sizes ≡ b.data_sizes ++ map (λ e. segment_sizes e.segments) es)
        × ((push_all es b).data_segments ≡ b.data_segments ++ all_segments es)
        × ((push_all es b).promises ≡ b.promises ++ map (λ e. e.promise) es)
  unfolding push_all serialized all_segments
  push_all_lem [] b = (
    sym (append-nil _),
    sym (append-nil _),
    sym (append-nil _),
    sym (append-nil _),
    sym (append-nil _),
  )
  push_all_lem (e ∷ es) b =
      let b' = push serialize e b in
      let (ms, mb, ds, sg, ps) = push_all_lem es b' in
      (
        ms
            ∙ ap (λ c. c.meta_sizes ++ map (λ e. length (serialize e.metadata [])) es)
                (push_lem e b)
            ∙ append_assoc b.meta_sizes (length (serialize e.metadata []) ∷ []) _,
        mb
            ∙ ap (λ c. c.meta_buffer ++ serialized es) (push_lem e b)
            ∙ append_assoc b.meta_buffer (serialize e.metadata []) _,
        ds
            ∙ ap (λ c. c.data_sizes ++ map (λ e. segment_sizes e.segments) es) (push_lem e b)
            ∙ append_assoc b.data_sizes (segment_sizes e.segments ∷ []) _,
        sg
            ∙ ap (λ c. c.data_segments ++ all_segments es) (push_lem e b)
            ∙ append_assoc b.data_segments e.segments _,
        ps
            ∙ ap (λ c. c.promises ++ map (λ e. e.promise) es) (push_lem e b)
            ∙ append_assoc b.promises (e.promise ∷ []) _,
      )

length-bytes_at : (memory : ℕ → ℕ) (ptr n : ℕ) → length (bytes_at memory ptr n) ≡ n
unfolding bytes_at
length-bytes_at memory ptr zero = refl
length-bytes_at memory ptr (suc n) = ap suc (length-bytes_at memory (ptr + 1) n)

pub length-exposed :
    (memory : ℕ → ℕ) (ss : List Segment) → length (exposed memory ss) ≡ segment_sizes ss
unfolding exposed
length-exposed memory [] = refl
length-exposed memory (s ∷ ss) = ground (
  arith,
  length-exposed memory ss,
  length-append (bytes_at memory s.ptr s.size) (exposed memory ss),
  length-bytes_at memory s.ptr s.size,
)

-- For a batch that is not empty and whose counts and sizes belong together, the sizes that go
-- with the RPC are those of the bulk handles.
pub bulk_sizes :
    {P : Type 0} (memory : ℕ → ℕ) (b : ProducerBatch P)
    → IsBatch b
    → 0 < count b
    → (length (expose_metadata b) ≡ metadata_bulk_size b)
      × (length (expose_data memory b) ≡ data_bulk_size b)
unfolding count expose_metadata expose_data metadata_bulk_size data_bulk_size
bulk_sizes memory b v h = (
  ground (
    arith,
    length-append (encode_words b.meta_sizes) b.meta_buffer,
    length-encode_words b.meta_sizes,
  ),
  ground (
    arith,
    length-append (encode_words b.data_sizes) (exposed memory b.data_segments),
    length-encode_words b.data_sizes,
    length-exposed memory b.data_segments,
    v.data_counted,
    v.segments_sized,
  ),
)
