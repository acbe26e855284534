-- ===== src/Consumer/Receive/Rounds.antt =====
-- What a consumer receives of one round of feedConsumer, by any topic manager.
pub mod Ranges
pub mod Whole
pub mod Tests
use mofka.Result.{Result}
use mofka.Consumer.Receive.Delivery.{recv_batch-fed_of, numbered}
use mofka.TopicManager.Slices.{take-drop-take}
use mofka.Consumer.Receive.Rounds.Ranges.{part, small_slice}
use mofka.Consumer.Receive.{recv_batch, Arrival}
use mofka.TopicManager.Interface.{TopicManager, IsTopicManager}
use mofka.TopicManager.{Fed, fed_of}
use mofka.Prelude.{
  Outcome, ◌>>=◌, length, take, drop, length-take, length-drop, All, lengths, Bytes, IsU64, returns,
  throws, ℕ, ◌-◌, ◌≤◌, ◌<◌, min, String, ◌≡◌, refl, sym, ap, ap₂, ◌∙◌, Bool, true, Option, none,
  some, List, [], ◌∷◌, ◌++◌, arith,
}
use mofka.Rdma.{Rdma, IsRdma}

module _ (R : Rdma) where
  join : Option (List Arrival) → Option (List Arrival) → Option (List Arrival)
  join (some xs) (some ys) = some (xs ++ ys)
  join _ _ = none

  -- ClientImpl::forwardBatchToConsumer: what recvBatch has of the batch, and the Result that answers; an
  -- exception leaves the handler.
  unfoldable pub forward_batch_to_consumer :
      Fed R.Bulk → Outcome (Option (List Arrival) × Result (Unit {0}))
  forward_batch_to_consumer fed = do
    received ← recv_batch R fed
    returns (received, record { success = true; error = ""; value = tt })

  -- ConsumerHandle::feed, by how the RPC ends: it does not look at the answer, and an exception is only
  -- logged.
  unfoldable pub feed : Outcome (Option (List Arrival) × Result (Unit {0})) → Option (List Arrival)
  feed (throws what) = some []
  feed (returns (received, result)) = received

  -- What a consumer has of the RPCs of one feedConsumer, in their order.
  unfoldable pub receive_all : List (Fed R.Bulk) → Option (List Arrival)
  unfolding join feed forward_batch_to_consumer
  receive_all [] = some []
  receive_all (fed ∷ feds) = join (feed (forward_batch_to_consumer fed)) (receive_all feds)

  pub receive_all-cons :
      (fed : Fed R.Bulk) (feds : List (Fed R.Bulk)) (xs ys : List Arrival)
      → recv_batch R fed ≡ returns (some xs)
      → receive_all feds ≡ some ys
      → receive_all (fed ∷ feds) ≡ some (xs ++ ys)
  unfolding receive_all join forward_batch_to_consumer
  receive_all-cons fed feds xs ys e f = rw (e, f) refl

  module _ (M : TopicManager R) (IsLog : (ms descs : List Bytes) → M.Topic → Type 0)
      (keeps : IsTopicManager R M IsLog) (ms descs : List Bytes) where
    -- Each round finds a topic whose log is a part of `ms`, from `low` events on not shorter than that
    -- of the round before.
    abbrev pub Prefixes : ℕ → List (Bool × M.Topic) → Type 0
    Prefixes low [] = Unit {0}
    Prefixes low ((stop, t) ∷ rounds) =
        (k : ℕ) × (low ≤ k)
        × (k ≤ length ms)
        × IsLog (take k ms) (take k descs) t
        × Prefixes k rounds

    -- What one round feeds is received.
    pub round_received :
        (batch_size first_id k num : ℕ) (address : String) (t : M.Topic)
        → IsRdma R
        → All IsU64 (lengths ms)
        → IsLog (take k ms) (take k descs) t
        → 1 ≤ batch_size
        → first_id < k
        → k ≤ length ms
        → IsU64 (length ms)
        → num ≡ min batch_size (k - first_id)
        → (fed : Fed R.Bulk) × (M.feed_once batch_size first_id address t ≡ some fed)
          × (fed.count ≡ num)
          × (recv_batch R fed ≡ returns (some (part ms descs first_id num)))
    round_received batch_size first_id k num address t law small is_log b f h u n =
        let count : length (take k ms) ≡ k = omega (arith, length-take k ms) in
        let paired = keeps.is_paired (take k ms) (take k descs) t is_log in
        let xs = take num (drop first_id (take k ms)) in
        let ds = take num (drop first_id (take k descs)) in
        let same : length xs ≡ length ds = omega (
          arith,
          length-take num (drop first_id (take k ms)),
          length-drop first_id (take k ms),
          length-take num (drop first_id (take k descs)),
          length-drop first_id (take k descs),
        ) in
        let same_ms = take-drop-take num first_id k ms (omega arith) in
        let same_ds = take-drop-take num first_id k descs (omega arith) in
        (
          fed_of R first_id xs ds address,
          keeps.feeds batch_size first_id num address (take k ms) (take k descs) t is_log b
              (omega arith) (omega arith) (n ∙ ap (λ c. min batch_size (c - first_id)) (sym count)),
          omega (
            arith,
            length-take num (drop first_id (take k ms)),
            length-drop first_id (take k ms),
          ),
          recv_batch-fed_of R first_id xs ds address law same
                (small_slice num first_id (take k ms) (small_slice k 0 ms small))
                (small_slice num first_id (take k descs)
                  (keeps.is_small (take k ms) (take k descs) t is_log))
              ∙ ap₂ (λ x y. returns (some (numbered first_id x y))) same_ms same_ds,
        )
