-- ===== src/Consumer/Batch.antt =====
-- src/ConsumerBatchImpl.hpp: the local copy of a batch. The four vectors are exposed as one handle,
-- into which each transfer writes at its offset.
pub mod Pulled
use mofka.Prelude.{
  Outcome, ◌>>=◌, length, take, drop, replicate, ltb, ◌==◌, if◌then◌else◌, Bytes, word,
  decode_words, returns, throws, ℕ, ◌+◌, ◌*◌, List, ◌++◌,
}
use mofka.Rdma.{Rdma, BulkRef}

pub record ConsumerBatch : Type 0 where
  pub meta_sizes : List ℕ
  pub meta_buffer : Bytes
  pub data_desc_sizes : List ℕ
  pub data_desc_buffer : Bytes

-- What a transfer of `bytes` to `offset` leaves.
write_at : ℕ → Bytes → Bytes → Bytes
write_at offset bytes local = take offset local ++ (bytes ++ drop (offset + length bytes) local)

-- The vectors that are behind one another in the exposed segments.
pub split_batch : (count metadata_size data_desc_size : ℕ) → Bytes → ConsumerBatch
split_batch count metadata_size data_desc_size local =
    let after_sizes = drop (count * word) local in
    let after_metadata = drop metadata_size after_sizes in
    let after_desc_sizes = drop (count * word) after_metadata in
    record {
      meta_sizes = decode_words count local;
      meta_buffer = take metadata_size after_sizes;
      data_desc_sizes = decode_words count after_metadata;
      data_desc_buffer = take data_desc_size after_desc_sizes;
    }

module _ (R : Rdma) where
  -- The function pull_bulk_ref of `pullFrom`.
  pub pull_bulk_ref : (offset : ℕ) → BulkRef R.Bulk → Bytes → Outcome Bytes
  pull_bulk_ref offset remote local =
      if remote.size == 0
      then returns local
      else if ltb (length local) (offset + remote.size)
      then throws R.overflow
      else (do
        bytes ← R.transfer remote.handle remote.offset remote.size
        returns (write_at offset bytes local))

  -- The constructor and ConsumerBatchImpl::pullFrom, as recvBatch calls them.
  pub pull_from :
      (count : ℕ)
      (remote_meta_sizes remote_meta_buffer remote_desc_sizes remote_desc_buffer : BulkRef R.Bulk)
      → Outcome ConsumerBatch
  pull_from count remote_meta_sizes remote_meta_buffer remote_desc_sizes remote_desc_buffer =
      let sizes = count * word in
      let metadata_size = remote_meta_buffer.size in
      let data_desc_size = remote_desc_buffer.size in
      do
        local₁ ←
            pull_bulk_ref 0 remote_meta_sizes
              (replicate (sizes + metadata_size + sizes + data_desc_size) 0)
        local₂ ← pull_bulk_ref sizes remote_meta_buffer local₁
        local₃ ← pull_bulk_ref (sizes + metadata_size) remote_desc_sizes local₂
        local₄ ← pull_bulk_ref (sizes + metadata_size + sizes) remote_desc_buffer local₃
        returns (split_batch count metadata_size data_desc_size local₄)
