-- ===== src/Producer/Queue.antt =====
-- ActiveProducerBatchQueue of src/ProducerBatchImpl.hpp: pushes, flushes and stops of other threads
-- against the thread that sends. Each transition is what happens while the mutex is held.
pub mod Order
pub mod Bounds
pub mod Flush
pub mod Stopped
pub mod Tests
use mofka.Prelude.{
  ◌==◌, if◌then◌else◌, Bytes, ℕ, ◌-◌, ◌^◌, ◌≡◌, Bool, true, false, not, ◌&&◌, ◌||◌, Option, none,
  some, List, [], ◌∷◌, ◌++◌,
}
use mofka.Producer.Batch.{Event, ProducerBatch, empty_batch, count}
use mofka.Producer.Batch

-- BatchSize::Adaptive(), the largest size_t.
abbrev pub adaptive_size : ℕ
adaptive_size = 2 ^ 64 - 1

pub record BatchQueue (P : Type 0) : Type 0 where
  pub batch_size : ℕ
  pub batch_queue : List (ProducerBatch P)
  pub need_stop : Bool
  pub request_flush : Bool
  pub running : Bool

module _ {P : Type 0} where
  unfoldable pub initial : ℕ → BatchQueue P
  initial size = record {
    batch_size = size;
    batch_queue = [];
    need_stop = false;
    request_flush = false;
    running = false;
  }

  unfoldable pub is_empty : List (ProducerBatch P) → Bool
  is_empty [] = true
  is_empty (b ∷ bs) = false

  -- `m_batch_queue.back()->count()`, on a queue that is not empty.
  back_count : List (ProducerBatch P) → ℕ
  back_count [] = 0
  back_count (b ∷ []) = count b
  back_count (b ∷ c ∷ bs) = back_count (c ∷ bs)

  -- A change of the batch at the back.
  change_back :
      (ProducerBatch P → ProducerBatch P) → List (ProducerBatch P) → List (ProducerBatch P)
  change_back f [] = []
  change_back f (b ∷ []) = f b ∷ []
  change_back f (b ∷ c ∷ bs) = b ∷ change_back f (c ∷ bs)

  -- The first batch is made when there is none, and the next when the last one is full.
  at_least_one : List (ProducerBatch P) → List (ProducerBatch P)
  at_least_one [] = empty_batch ∷ []
  at_least_one (b ∷ bs) = b ∷ bs

  is_full : ℕ → List (ProducerBatch P) → Bool
  unfolding back_count
  is_full size bs = not (size == adaptive_size) && (back_count bs == size)

  with_room : ℕ → List (ProducerBatch P) → List (ProducerBatch P)
  unfolding is_full
  with_room size bs = if is_full size bs then bs ++ (empty_batch ∷ []) else bs

  -- ActiveProducerBatchQueue::push, with whether it notifies the sender.
  unfoldable pub push :
      {M : Type 0} → (M → Bytes → Bytes) → Event M P → BatchQueue P → BatchQueue P × Bool
  unfolding at_least_one with_room change_back
  push serialize e q =
      let queue = at_least_one q.batch_queue in
      (
        record q {
          batch_queue = change_back (Batch.push serialize e) (with_room q.batch_size queue);
        },
        (q.batch_size == adaptive_size) || is_full q.batch_size queue,
      )

  -- ActiveProducerBatchQueue::flush and stop; `stop` then waits until the loop has ended.
  unfoldable pub flush : BatchQueue P → BatchQueue P
  flush q = if q.running then record q { request_flush = true } else q

  unfoldable pub stop : BatchQueue P → BatchQueue P
  stop q = if q.running then record q { need_stop = true } else q

  -- The condition of the `while` of `loop`.
  unfoldable pub goes_on : BatchQueue P → Bool
  unfolding is_empty
  goes_on q = not q.need_stop || not (is_empty q.batch_queue)

  front_count : List (ProducerBatch P) → ℕ
  front_count [] = 0
  front_count (b ∷ bs) = count b

  -- The predicate of `m_cv.wait`.
  unfoldable pub wakes : BatchQueue P → Bool
  unfolding is_empty front_count
  wakes q =
      if q.need_stop || q.request_flush
      then true
      else if is_empty q.batch_queue
      then false
      else if q.batch_size == adaptive_size
      then true
      else front_count q.batch_queue == q.batch_size

  -- After the wait: an empty queue ends the round, otherwise a batch is taken off and sent.
  taken : List (ProducerBatch P) → BatchQueue P → Option (ProducerBatch P) × BatchQueue P
  taken [] q = (none, record q { request_flush = false })
  taken (b ∷ bs) q = (some b, record q { batch_queue = bs })

  unfoldable pub take_batch : BatchQueue P → Option (ProducerBatch P) × BatchQueue P
  unfolding taken
  take_batch q = taken q.batch_queue q

  -- After `sendBatch`, with the mutex locked again.
  unfoldable pub after_send : BatchQueue P → BatchQueue P
  after_send q = record q { request_flush = false }

-- The queue with its sending thread: the batch that is being sent, the batches sent so far (oldest
-- first), and the promises of the events pushed so far.
pub record System (P : Type 0) : Type 0 where
  pub queue : BatchQueue P
  pub sending : Option (ProducerBatch P)
  pub sent : List (ProducerBatch P)
  pub pushed : List P

module _ {M P : Type 0} (serialize : M → Bytes → Bytes) where
  pub data Step (s : System P) : System P → Type 0 where
    pushes :
        (e : Event M P)
        → Step s (record s {
          queue = (push serialize e s.queue).0;
          pushed = s.pushed ++ (e.promise ∷ []);
        })
    flushes : Step s (record s { queue = flush s.queue })
    stops : Step s (record s { queue = stop s.queue })
    begins :
        s.queue.running ≡ false → Step s (record s { queue = record s.queue { running = true } })
    takes :
        s.queue.running ≡ true
        → s.sending ≡ none
        → goes_on s.queue ≡ true
        → wakes s.queue ≡ true
        → Step s (record s { queue = (take_batch s.queue).1; sending = (take_batch s.queue).0 })
    sends :
        (b : ProducerBatch P)
        → s.sending ≡ some b
        → Step s
            (record s { queue = after_send s.queue; sending = none; sent = s.sent ++ (b ∷ []) })
    ends :
        s.queue.running ≡ true
        → s.sending ≡ none
        → goes_on s.queue ≡ false
        → Step s (record s { queue = record s.queue { running = false } })

  pub data Reach (s : System P) : System P → Type 0 where
    here : Reach s s
    next : {t u : System P} → Reach s t → Step t u → Reach s u

-- A queue that was just made, before its thread has begun.
abbrev pub start : {P : Type 0} → ℕ → System P
start size = record { queue = initial size; sending = none; sent = []; pushed = [] }
