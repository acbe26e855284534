-- ===== src/Producer/Routed.antt =====
-- src/Producer.cpp with src/ProducerBatchImpl.hpp: a producer together with the batch queues of its
-- targets, which are numbered. A ULT enters its event into the queue in the step in which it
-- has its turn; a queue that has not been made is one without batches.
pub mod Order
pub mod Drained
pub mod Tests
use mofka.Producer.Batch.{Event}
use mofka.Producer.Queue.{System}
use mofka.Prelude.{
  Outcome, ◌==◌, if◌then◌else◌, Bytes, returns, throws, ℕ, String, ◌≡◌, true, [], ◌∷◌, ◌++◌,
}
use mofka.Producer.Push.{ProducerImpl, Ordering, contains, has_turn, enter, fail}
use mofka.Producer.Push
use mofka.Producer.Queue

pub record Routed (P : Type 0) : Type 0 where
  pub producer : ProducerImpl ℕ
  pub queues : ℕ → System P

-- m_batch_queues[target].
unfoldable pub set_queue : {P : Type 0} → ℕ → System P → (ℕ → System P) → ℕ → System P
set_queue target q queues t = if target == t then q else queues t

abbrev pub new_producer : {P : Type 0} → Ordering → ℕ → Routed P
new_producer ordering size = record {
  producer = Push.initial ordering;
  queues = λ target. Queue.start size;
}

-- Step 3.5 of a ULT: the push into a queue, with the promises pushed so far.
abbrev pub queue_push : {M P : Type 0} → (M → Bytes → Bytes) → Event M P → System P → System P
queue_push serialize e s = record s {
  queue = (Queue.push serialize e s.queue).0;
  pushed = s.pushed ++ (e.promise ∷ []);
}

-- `event i` is the event pushed with id `i`, with its promise.
module _ {M P : Type 0} (serialize : M → Bytes → Bytes) (select : ℕ → Outcome ℕ)
    (event : ℕ → Event M P) where
  -- What threads do: push, the end of a ULT, and all else that happens to the queue of a target.
  pub data Transition (s : Routed P) : Routed P → Type 0 where
    push_starts : Transition s (record s { producer = Push.push s.producer })
    ult_enters :
        (i target : ℕ)
        → contains i s.producer.posted ≡ true
        → select i ≡ returns target
        → has_turn s.producer i ≡ true
        → Transition s (record s {
          producer = enter s.producer i target;
          queues = set_queue target (queue_push serialize (event i) (s.queues target)) s.queues;
        })
    ult_fails :
        (i : ℕ) (ex : String)
        → contains i s.producer.posted ≡ true
        → select i ≡ throws ex
        → Transition s (record s { producer = fail s.producer i ex })
    queue_runs :
        (target : ℕ) (q : System P)
        → Queue.Step serialize (s.queues target) q
        → q.pushed ≡ (s.queues target).pushed
        → Transition s (record s { queues = set_queue target q s.queues })

  pub data Reachable (s : Routed P) : Routed P → Type 0 where
    initially : Reachable s s
    after : {t u : Routed P} → Reachable s t → Transition t u → Reachable s u
