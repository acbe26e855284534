-- ===== src/Consumer/Receive.antt =====
-- ConsumerImpl::recvBatch of src/Consumer.cpp. The ULT of each event is
-- given by what it does to its promise; the order in which the ULTs run does not show in that.
pub mod Delivery
pub mod FromTopic
pub mod FromManager
pub mod Rounds
pub mod Request
use mofka.Prelude.{
  Outcome, ◌>>=◌, length, take, drop, leb, if◌then◌else◌, Bytes, returns, ℕ, ◌+◌, ◌%◌, ◌^◌, Option,
  none, some, List, [], ◌∷◌,
}
use mofka.Rdma.{Rdma}
use mofka.Consumer.Futures.{Futures, take_promise}
use mofka.Consumer.Batch.{ConsumerBatch, pull_from}
use mofka.TopicManager.{Fed}

-- What the ULT of an event captures: the id and the two views into the batch.
pub record Arrival : Type 0 where
  pub event_id : ℕ
  pub metadata : Bytes
  pub descriptor : Bytes

-- A string_view into a buffer; `none` leaves it.
pub view : (offset size : ℕ) → Bytes → Option Bytes
view offset size buffer =
    if leb (offset + size) (length buffer) then some (take size (drop offset buffer)) else none

-- One more event, if it and the rest of the batch can be read.
pub arrive : ℕ → Option Bytes → Option Bytes → Option (List Arrival) → Option (List Arrival)
arrive event_id (some m) (some d) (some rest) =
    some (record { event_id = event_id; metadata = m; descriptor = d } ∷ rest)
arrive event_id _ _ _ = none

-- The loop of recvBatch over the sizes of a batch.
pub arrivals :
    (event_id metadata_offset data_desc_offset : ℕ) (meta_sizes data_desc_sizes : List ℕ)
    → ConsumerBatch
    → Option (List Arrival)
arrivals event_id metadata_offset data_desc_offset (m ∷ ms) (d ∷ ds) batch =
    arrive event_id (view metadata_offset m batch.meta_buffer)
      (view data_desc_offset d batch.data_desc_buffer)
      (arrivals ((event_id + 1) % 2 ^ 64) (metadata_offset + m) (data_desc_offset + d) ms ds batch)
arrivals event_id metadata_offset data_desc_offset _ _ batch = some []

module _ (R : Rdma) where
  -- What recvBatch has of the references that ConsumerHandle::feed sent: the batch that it pulled and
  -- the events in it.
  pub recv_batch : Fed R.Bulk → Outcome (Option (List Arrival))
  recv_batch fed = do
    batch ← pull_from R fed.count fed.metadata_sizes fed.metadata fed.data_desc_sizes fed.data_desc
    returns (arrivals fed.first_id 0 0 batch.meta_sizes batch.data_desc_sizes batch)

  -- The promise that each event takes from the queue of futures, in the order of the loop.
  pub promises : List Arrival → Futures → List (ℕ × Arrival) × Futures
  promises [] f = ([], f)
  promises (a ∷ rest) f =
      let (i, f') = take_promise f in let (is, f'') = promises rest f' in ((i, a) ∷ is, f'')
