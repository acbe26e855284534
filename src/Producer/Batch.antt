-- ===== src/Producer/Batch.antt =====
-- ProducerBatchImpl of src/ProducerBatchImpl.hpp. `M` is Metadata, `P` is Promise<EventID>. The sum
-- of the sizes of what is in memory does not pass `size_t`, so sizes are added without wrapping.
pub mod Contents
pub mod Settled
pub mod Sent
pub mod Delivered
pub mod Answered
pub mod Consumed
pub mod Tests
use mofka.Prelude.{
  Outcome, length, ◌==◌, if◌then◌else◌, Bytes, word, encode_words, returns, throws, ℕ, zero, suc,
  ◌+◌, ◌-◌, ◌*◌, String, List, [], ◌∷◌, ◌++◌, str_append,
}

-- Data::Segment.
pub record Segment : Type 0 where
  pub ptr : ℕ
  pub size : ℕ

pub record ProducerBatch (P : Type 0) : Type 0 where
  pub meta_sizes : List ℕ
  pub meta_buffer : Bytes
  pub data_sizes : List ℕ
  pub data_segments : List Segment
  pub total_data_size : ℕ
  pub promises : List P

pub record Event (M P : Type 0) : Type 0 where
  pub metadata : M
  pub segments : List Segment
  pub promise : P

-- The loop over `data.self->m_segments`: the segments and the size so far.
add_segments : List Segment → List Segment → ℕ → List Segment × ℕ
add_segments [] segments data_size = (segments, data_size)
add_segments (s ∷ ss) segments data_size =
    add_segments ss (segments ++ (s ∷ [])) (data_size + s.size)

-- The bytes at an address of the producer's memory.
unfoldable pub bytes_at : (ℕ → ℕ) → ℕ → ℕ → Bytes
bytes_at memory ptr zero = []
bytes_at memory ptr (suc n) = memory ptr ∷ bytes_at memory (ptr + 1) n

-- The segments that are exposed: those of size 0 are passed over.
pub exposed : (ℕ → ℕ) → List Segment → Bytes
unfolding bytes_at
exposed memory [] = []
exposed memory (s ∷ ss) =
    if s.size == 0 then exposed memory ss else bytes_at memory s.ptr s.size ++ exposed memory ss

module _ {P : Type 0} where
  unfoldable pub empty_batch : ProducerBatch P
  empty_batch = record {
    meta_sizes = [];
    meta_buffer = [];
    data_sizes = [];
    data_segments = [];
    total_data_size = 0;
    promises = [];
  }

  -- ProducerBatchImpl::push, where `serialize metadata buffer` is the buffer after the call of the
  -- serializer on an archive over it.
  unfoldable pub push :
      {M : Type 0} → (M → Bytes → Bytes) → Event M P → ProducerBatch P → ProducerBatch P
  unfolding add_segments
  push serialize e b =
      let meta_buffer = serialize e.metadata b.meta_buffer in
      let (data_segments, data_size) = add_segments e.segments b.data_segments 0 in
      record b {
        meta_sizes = b.meta_sizes ++ ((length meta_buffer - length b.meta_buffer) ∷ []);
        meta_buffer = meta_buffer;
        data_sizes = b.data_sizes ++ (data_size ∷ []);
        data_segments = data_segments;
        total_data_size = b.total_data_size + data_size;
        promises = b.promises ++ (e.promise ∷ []);
      }

  -- ProducerBatchImpl::count.
  unfoldable pub count : ProducerBatch P → ℕ
  count b = length b.meta_sizes

  -- ProducerBatchImpl::exposeMetadata: the content of the bulk handle.
  unfoldable pub expose_metadata : ProducerBatch P → Bytes
  expose_metadata b = if count b == 0 then [] else encode_words b.meta_sizes ++ b.meta_buffer

  -- ProducerBatchImpl::exposeData.
  unfoldable pub expose_data : (ℕ → ℕ) → ProducerBatch P → Bytes
  unfolding exposed
  expose_data memory b =
      if count b == 0 then [] else encode_words b.data_sizes ++ exposed memory b.data_segments

  unfoldable pub metadata_bulk_size : ProducerBatch P → ℕ
  metadata_bulk_size b = count b * word + length b.meta_buffer

  unfoldable pub data_bulk_size : ProducerBatch P → ℕ
  data_bulk_size b = count b * word + b.total_data_size

  -- setPromises(EventID): the promises with what each is set to.
  set_values : List P → ℕ → List (P × Outcome ℕ)
  set_values [] id = []
  set_values (p ∷ ps) id = (p, returns id) ∷ set_values ps (id + 1)

  unfoldable pub set_promises_value : ProducerBatch P → ℕ → List (P × Outcome ℕ)
  unfolding set_values
  set_promises_value b first_id = set_values b.promises first_id

  -- setPromises(Exception). Each round moves `ex` into the promise; `moved` is what the move leaves
  -- of the text of a std::logic_error.
  set_exceptions : (String → String) → List P → String → List (P × Outcome ℕ)
  set_exceptions moved [] ex = []
  set_exceptions moved (p ∷ ps) ex = (p, throws ex) ∷ set_exceptions moved ps (moved ex)

  unfoldable pub set_promises_exception :
      (String → String) → ProducerBatch P → String → List (P × Outcome ℕ)
  unfolding set_exceptions
  set_promises_exception moved b ex = set_exceptions moved b.promises ex

  -- ActiveProducerBatchQueue::sendBatch: `registered` is how the two calls of `expose` ended,
  -- `reply` how the RPC ended, with the first event id or the error of the Result.
  unfoldable pub send_batch :
      (String → String)
      → (registered : Outcome (Unit {0})) (reply : Outcome (Outcome ℕ)) → ProducerBatch P
      → List (P × Outcome ℕ)
  send_batch moved (throws what) reply b =
      set_promises_exception moved b
        (str_append "Unexpected error when registering batch for RDMA: " what)
  send_batch moved (returns _) (throws what) b =
      set_promises_exception moved b (str_append "Unexpected error when sending batch: " what)
  send_batch moved (returns _) (returns (throws error)) b = set_promises_exception moved b error
  send_batch moved (returns _) (returns (returns first_id)) b = set_promises_value b first_id
