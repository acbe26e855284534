-- ===== src/Producer/Queue/Tests.antt =====
-- The properties of the queue at concrete states.
use mofka.Prelude.{
  replicate, Bytes, ℕ, ◌≡◌, refl, ◌≢◌, true, false, none, List, [], ◌∷◌, ◌++◌, arith,
}
use mofka.Producer.Batch.{ProducerBatch, Event, empty_batch, count}
use mofka.Producer.Batch
use mofka.Producer.Queue.{
  System, BatchQueue, initial, push, stop, goes_on, wakes, pushes, stops, begins, Reach, here, next,
  start, take_batch, after_send, takes, sends,
}
use mofka.Producer.Queue.Order.{Reach-InOrder, ends-sent, promises_of}
use mofka.Producer.Queue.Bounds.{push-Filled, Filled}

abbrev one_byte : ℕ → Bytes → Bytes
one_byte m buffer = buffer ++ (m ∷ [])

abbrev event : ℕ → Event ℕ ℕ
event i = record { metadata = i; segments = []; promise = i }

abbrev batch_of : ℕ → List ℕ → ProducerBatch ℕ
batch_of n ps = record {
  meta_sizes = replicate n 1;
  meta_buffer = ps;
  data_sizes = replicate n 0;
  data_segments = [];
  total_data_size = 0;
  promises = ps;
}

-- A batch size of 2, with a full batch and one with a single event.
abbrev three_events : BatchQueue ℕ
three_events = record {
  batch_size = 2;
  batch_queue = batch_of 2 (0 ∷ 1 ∷ []) ∷ batch_of 1 (2 ∷ []) ∷ [];
  need_stop = false;
  request_flush = false;
  running = true;
}

three_runs :
    (push one_byte
      (event 2)
      (push one_byte
        (event 1)
        (push one_byte (event 0) (record three_events { batch_queue = [] })).0).0).0
    ≡ three_events
unfolding push Batch.push empty_batch count
three_runs = refl

one_pushed :
    Reach one_byte
      (start 2)
      (record (start 2) { queue = (push one_byte (event 0) (initial 2)).0; pushed = 0 ∷ [] })
one_pushed = next here (pushes (event 0))

Reach-InOrder_example : promises_of (push one_byte (event 0) (initial 2)).0.batch_queue ≡ 0 ∷ []
Reach-InOrder_example = Reach-InOrder one_byte 2 one_pushed

-- A queue that sent its one event after it was told to stop.
abbrev all_sent : System ℕ
all_sent = record {
  queue = record (initial 2) { running = true; need_stop = true };
  sending = none;
  sent = batch_of 1 (0 ∷ []) ∷ [];
  pushed = 0 ∷ [];
}

all_sent_reached : Reach one_byte (start 2) all_sent
unfolding initial push Batch.push empty_batch count stop take_batch after_send goes_on wakes
all_sent_reached =
    next
      (next (next (next (next here (pushes (event 0))) (begins refl)) stops)
        (takes refl refl refl refl))
      (sends (batch_of 1 (0 ∷ [])) refl)

ends-sent_example : promises_of all_sent.sent ≡ all_sent.pushed
unfolding initial goes_on
ends-sent_example = ends-sent one_byte 2 all_sent_reached refl refl

push-Filled_example : Filled 2 (push one_byte (event 3) three_events).0.batch_queue
unfolding count
push-Filled_example =
    push-Filled one_byte (event 3) three_events (omega arith) (omega arith) (omega arith)

second_count : count (batch_of 1 (2 ∷ [])) ≢ 2
unfolding count
second_count = omega arith

-- A queue with two batches that is told to stop; one batch is taken, and an event pushed.
abbrev stopping : System ℕ
stopping = record {
  queue = record three_events { need_stop = true };
  sending = none;
  sent = [];
  pushed = 0 ∷ 1 ∷ 2 ∷ [];
}

abbrev one_taken : System ℕ
one_taken = record stopping {
  queue = (take_batch stopping.queue).1;
  sending = (take_batch stopping.queue).0;
}

abbrev one_taken_pushed : System ℕ
one_taken_pushed = record one_taken {
  queue = (push one_byte (event 3) one_taken.queue).0;
  pushed = 0 ∷ 1 ∷ 2 ∷ 3 ∷ [];
}
