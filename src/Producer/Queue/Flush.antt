-- ===== src/Producer/Queue/Flush.antt =====
-- Which batches a flush gets sent.
use mofka.Prelude.{◌≡◌, ◌≢◌, true, false, List, [], ◌∷◌, arith}
use mofka.Producer.Batch.{ProducerBatch, count}
use mofka.Producer.Queue.{
  adaptive_size, BatchQueue, flush, wakes, take_batch, after_send, is_empty, front_count, taken,
}

module _ {P : Type 0} where
  -- One round of the loop: a batch is taken and sent.
  abbrev pub round : BatchQueue P → BatchQueue P
  round q = after_send (take_batch q).1

  round-cons :
      (q : BatchQueue P) (b : ProducerBatch P) (bs : List (ProducerBatch P))
      → q.batch_queue ≡ b ∷ bs
      → round q ≡ record q { batch_queue = bs; request_flush = false }
  unfolding after_send take_batch taken
  round-cons q b bs h = rw (h, taken)

  flush_running :
      (q : BatchQueue P) → q.running ≡ true → flush q ≡ record q { request_flush = true }
  unfolding flush
  flush_running q h = rw h

  -- With two batches in a running queue that is not to stop and whose batch size is not
  -- adaptive, a flush sends the first only: the request is dropped with it, and if the second
  -- is not full the sender waits again.
  pub flush_sends_one :
      (q : BatchQueue P) (b c : ProducerBatch P)
      → q.batch_queue ≡ b ∷ c ∷ []
      → q.running ≡ true
      → q.need_stop ≡ false
      → q.batch_size ≢ adaptive_size
      → count c ≢ q.batch_size
      → (wakes (flush q) ≡ true)
        × ((round (flush q)).batch_queue ≡ c ∷ [])
        × (wakes (round (flush q)) ≡ false)
  unfolding wakes is_empty front_count
  flush_sends_one q b c e r n a k =
      let flushed = flush_running q r in
      let sent : round (flush q) ≡ record q { batch_queue = c ∷ []; request_flush = false } =
        rw flushed (round-cons (record q { request_flush = true }) b (c ∷ []) e) in
      (rw (flushed, n), rw sent, rw sent (ground arith))
