-- ===== src/Producer/Routed/Tests.antt =====
-- A producer that sends its one event to target 7.
use mofka.Producer.Routed.Drained.{drained-sent}
use mofka.Producer.Queue.Order.{promises_of}
use mofka.Producer.Routed.Order.{ids_at, Ascends, targets-Ascends}
use mofka.Producer.Push.{enter, contains, strict, has_turn, may_flush}
use mofka.Producer.Routed.{
  set_queue, Routed, new_producer, queue_push, push_starts, ult_enters, queue_runs, Reachable,
  initially, after,
}
use mofka.Producer.Queue.{System}
use mofka.Prelude.{
  Outcome, Bytes, returns, ℕ, ◌≡◌, refl, true, none, List, [], ◌∷◌, ◌++◌, map, arith,
}
use mofka.Producer.Batch
use mofka.Producer.Batch.{Event, ProducerBatch}
use mofka.Producer.Push
use mofka.Producer.Queue

abbrev one_byte : ℕ → Bytes → Bytes
one_byte m buffer = buffer ++ (m ∷ [])

abbrev to_seven : ℕ → Outcome ℕ
to_seven i = returns 7

abbrev event : ℕ → Event ℕ ℕ
event i = record { metadata = i; segments = []; promise = i }

abbrev entered : System ℕ
entered = queue_push one_byte (event 0) (Queue.start 2)

abbrev begun : System ℕ
begun = record entered { queue = record entered.queue { running = true } }

abbrev flushed : System ℕ
flushed = record begun { queue = Queue.flush begun.queue }

abbrev taken : System ℕ
taken = record flushed {
  queue = (Queue.take_batch flushed.queue).1;
  sending = (Queue.take_batch flushed.queue).0;
}

abbrev batch : ProducerBatch ℕ
batch = Batch.push one_byte (event 0) Batch.empty_batch

abbrev finished : System ℕ
finished = record taken {
  queue = Queue.after_send taken.queue;
  sending = none;
  sent = taken.sent ++ (batch ∷ []);
}

abbrev routed : Routed ℕ
routed = record {
  producer = enter (Push.push (Push.initial strict)) 0 7;
  queues = set_queue 7 finished (
      set_queue 7 taken
        (set_queue 7 flushed (set_queue 7 begun (set_queue 7 entered (λ t. Queue.start 2)))));
}

reached : Reachable one_byte to_seven event (new_producer strict 2) routed
unfolding set_queue contains has_turn Push.push Push.initial Queue.push Queue.initial Queue.flush
    Queue.take_batch Queue.goes_on Queue.wakes Batch.push Batch.empty_batch Batch.count
reached =
    after
      (after
        (after
          (after (after (after initially push_starts) (ult_enters 0 7 refl refl refl))
            (queue_runs 7 begun (Queue.begins refl) refl))
          (queue_runs 7 flushed Queue.flushes refl))
        (queue_runs 7 taken (Queue.takes refl refl refl refl) refl))
      (queue_runs 7 finished (Queue.sends batch refl) refl)

targets-Ascends_example : (batch.promises ++ [] ≡ 0 ∷ []) × Ascends (0 ∷ [])
unfolding set_queue enter Push.push Push.initial Queue.push Queue.initial Queue.flush
    Queue.take_batch Queue.after_send Batch.push Batch.empty_batch Batch.count ids_at
targets-Ascends_example = targets-Ascends one_byte to_seven event 2 7 reached

drained-sent_example :
    (ids : List ℕ) × (promises_of (routed.queues 7).sent ≡ map (λ j. (event j).promise) ids)
    × (contains 0 ids ≡ true)
unfolding set_queue enter Push.push Push.initial Queue.push Queue.initial Queue.flush
    Queue.take_batch Queue.after_send may_flush Batch.push Batch.empty_batch Batch.count
drained-sent_example =
    drained-sent one_byte to_seven event strict 2 7 0 reached (omega arith) refl refl refl refl
