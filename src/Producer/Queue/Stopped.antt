-- ===== src/Producer/Queue/Stopped.antt =====
-- How many batches the sending thread still takes once its queue is told to stop, while other threads
-- push, flush and stop.
use mofka.Producer.Batch
use mofka.Prelude.{length, Bytes, ℕ, ◌+◌, ◌*◌, ◌≤◌, ◌≡◌, true}
use mofka.Producer.Queue.{System, Step, pushes, takes, taken}

module _ {M P : Type 0} (serialize : M → Bytes → Bytes) where
  -- Whether a step takes a batch off the queue, and whether it pushes an event.
  unfoldable pub takes_one : {s t : System P} → Step serialize s t → ℕ
  takes_one (takes r idle g w) = 1
  takes_one _ = 0

  unfoldable pub pushes_one : {s t : System P} → Step serialize s t → ℕ
  pushes_one (pushes e) = 1
  pushes_one _ = 0

  -- Steps of all threads, in which the sender takes a batch `taken` times and others push `num_pushes`
  -- events.
  pub data Run (s : System P) : (taken num_pushes : ℕ) → System P → Type 0 where
    no_step : Run s 0 0 s
    one_more :
        {t u : System P} {n k : ℕ}
        → Run s n k t
        → (st : Step serialize t u) → Run s (takes_one st + n) (pushes_one st + k) u

  -- What a step leaves to do.
  StillStops : {s t : System P} → Step serialize s t → Type 0
  StillStops {s} {t} st =
      (t.queue.need_stop ≡ true)
      × (takes_one st + length t.queue.batch_queue ≤ length s.queue.batch_queue + 2 * pushes_one st)
