-- ===== src/Producer/Routed/Order.antt =====
-- What the queue of each target holds and has sent.
use mofka.Producer.Push.Ids.{Rises}
use mofka.Producer.Queue.Order.{promises_of, in_sending, Reach-InOrder}
use mofka.Producer.Routed.{
  Routed, set_queue, queue_push, Transition, push_starts, ult_enters, ult_fails, queue_runs,
  Reachable, initially, after, new_producer,
}
use mofka.Producer.Queue.{System}
use mofka.Producer.Push.{Ordering, enter, fail, strict}
use mofka.Producer.Batch.{Event}
use mofka.Producer.Push.Turns.{strict-Rises}
use mofka.Prelude.{
  Outcome, All, ◌==◌, if◌then◌else◌, Bool-cases, Bytes, ℕ, ◌<◌, ◌≡◌, refl, sym, ap, ◌∙◌, inl, inr,
  List, [], ◌∷◌, ◌++◌, map, append-nil, map-append, arith,
}
use mofka.Producer.Push
use mofka.Producer.Queue

-- The ids of the events that entered the queue of a target, in their order.
unfoldable pub ids_at : ℕ → List (ℕ × ℕ) → List ℕ
ids_at target [] = []
ids_at target ((t, i) ∷ es) = if t == target then i ∷ ids_at target es else ids_at target es

pub ids_at-append :
    (target t i : ℕ) (es : List (ℕ × ℕ))
    → ids_at target (es ++ ((t, i) ∷ [])) ≡ ids_at target es ++ (if t == target then i ∷ [] else [])
unfolding ids_at
ids_at-append target t i [] = ground arith
ids_at-append target t i ((u, j) ∷ es) = ground (arith, ids_at-append target t i es)

-- Each number is larger than those before it.
abbrev pub Ascends : List ℕ → Type 0
Ascends [] = Unit {0}
Ascends (i ∷ is) = All (λ j. i < j) is × Ascends is

All-ids_at :
    (i target : ℕ) (es : List (ℕ × ℕ))
    → All {A = ℕ × ℕ} (λ e. i < e.1) es
    → All (λ j. i < j) (ids_at target es)
unfolding ids_at
All-ids_at i target [] a = tt
All-ids_at i target ((t, j) ∷ es) a = elim (Bool-cases (t == target)) [
  | inl there ↦ rw there (a.0, All-ids_at i target es a.1)
  | inr elsewhere ↦ rw elsewhere (All-ids_at i target es a.1)
]

Rises-ids_at : (target : ℕ) (es : List (ℕ × ℕ)) → Rises es → Ascends (ids_at target es)
unfolding ids_at
Rises-ids_at target [] r = tt
Rises-ids_at target ((t, i) ∷ es) r = elim (Bool-cases (t == target)) [
  | inl there ↦ rw there (All-ids_at i target es r.0, Rises-ids_at target es r.1)
  | inr elsewhere ↦ rw elsewhere (Rises-ids_at target es r.1)
]

module _ {M P : Type 0} (serialize : M → Bytes → Bytes) (select : ℕ → Outcome ℕ)
    (event : ℕ → Event M P) where
  abbrev pub promise_of : ℕ → P
  promise_of i = (event i).promise

  -- What has come of a start: the producer and each queue as on their own, and each queue was pushed the
  -- promises of the events that entered it.
  pub record IsRouted (ordering : Ordering) (size : ℕ) (s : Routed P) : Type 0 where
    pub producer_reached : Push.Reach select (Push.initial ordering) s.producer
    pub queue_reached : (t : ℕ) → Queue.Reach serialize (Queue.start size) (s.queues t)
    pub queue_pushed : (t : ℕ) → (s.queues t).pushed ≡ map promise_of (ids_at t s.producer.entered)

  -- A queue that takes the place of another.
  placed :
      (R : System P → Type 0) (target t : ℕ) (q : System P) (queues : ℕ → System P)
      → R q
      → R (queues t)
      → R (set_queue target q queues t)
  unfolding set_queue
  placed R target t q queues new old = elim (Bool-cases (target == t)) [
    | inl there ↦ rw there new
    | inr elsewhere ↦ rw elsewhere old
  ]

  entered_pushed :
      (i target t : ℕ) (es : List (ℕ × ℕ)) (queues : ℕ → System P)
      → ((u : ℕ) → (queues u).pushed ≡ map promise_of (ids_at u es))
      → (set_queue target (queue_push serialize (event i) (queues target)) queues t).pushed
        ≡ map promise_of (ids_at t (es ++ ((target, i) ∷ [])))
  unfolding set_queue
  entered_pushed i target t es queues same =
      rw (ids_at-append t target i es) (elim (Bool-cases (target == t)) [
        | inl there ↦
            let at : target ≡ t = ground arith in
            rw there (
              ap (λ ps. ps ++ (promise_of i ∷ []))
                (same target ∙ ap (λ u. map promise_of (ids_at u es)) at)
              ∙ sym (map-append promise_of (ids_at t es) (i ∷ [])))
        | inr elsewhere ↦
            rw elsewhere (same t ∙ ap (map promise_of) (sym (append-nil (ids_at t es))))
      ])

  Transition-IsRouted :
      (ordering : Ordering) (size : ℕ) {s u : Routed P}
      → Transition serialize select event s u
      → IsRouted ordering size s
      → IsRouted ordering size u
  unfolding Push.push enter fail
  Transition-IsRouted ordering size {s} push_starts r = record {
    producer_reached = Push.next r.producer_reached Push.pushes;
    queue_reached = r.queue_reached;
    queue_pushed = r.queue_pushed;
  }
  Transition-IsRouted ordering size {s} (ult_enters i target h v w) r = record {
    producer_reached = Push.next r.producer_reached (Push.enters i target h v w);
    queue_reached = λ t.
        placed (λ q. Queue.Reach serialize (Queue.start size) q) target t
          (queue_push serialize (event i) (s.queues target)) s.queues
          (Queue.next (r.queue_reached target) (Queue.pushes (event i))) (r.queue_reached t);
    queue_pushed = λ t. entered_pushed i target t s.producer.entered s.queues r.queue_pushed;
  }
  Transition-IsRouted ordering size {s} (ult_fails i ex h v) r = record {
    producer_reached = Push.next r.producer_reached (Push.fails i ex h v);
    queue_reached = r.queue_reached;
    queue_pushed = r.queue_pushed;
  }
  Transition-IsRouted ordering size {s} (queue_runs target q st e) r = record {
    producer_reached = r.producer_reached;
    queue_reached = λ t.
        placed (λ x. Queue.Reach serialize (Queue.start size) x) target t q s.queues
          (Queue.next (r.queue_reached target) st) (r.queue_reached t);
    queue_pushed = λ t. elim (Bool-cases (target == t)) [
      | inl there ↦
          let at : target ≡ t = ground arith in
          unfold set_queue in
          rw there
            (e ∙ r.queue_pushed target ∙ ap (λ u. map promise_of (ids_at u s.producer.entered)) at)
      | inr elsewhere ↦ unfold set_queue in rw elsewhere (r.queue_pushed t)
    ];
  }

  pub Reachable-IsRouted :
      (ordering : Ordering) (size : ℕ) {s : Routed P}
      → Reachable serialize select event (new_producer ordering size) s
      → IsRouted ordering size s
  unfolding Push.initial ids_at Queue.initial
  Reachable-IsRouted ordering size initially = record {
    producer_reached = Push.here;
    queue_reached = λ t. Queue.here;
    queue_pushed = λ t. refl;
  }
  Reachable-IsRouted ordering size (after r st) =
      Transition-IsRouted ordering size st (Reachable-IsRouted ordering size r)

  -- Under strict ordering, whatever pushes, ULTs, flushes, stops and the sending threads of the queues
  -- do, and in whatever order: what was sent to a target, is being sent and stands in its queue is, in
  -- this order, exactly the events that entered the queue of this target, and their ids rise.
  pub targets-Ascends :
      (size target : ℕ) {s : Routed P}
      → Reachable serialize select event (new_producer strict size) s
      → let q = s.queues target in
        let entered = ids_at target s.producer.entered in
        (promises_of q.sent ++ (in_sending q.sending ++ promises_of q.queue.batch_queue)
          ≡ map promise_of entered)
        × Ascends entered
  targets-Ascends size target {s} r =
      let routed = Reachable-IsRouted strict size r in
      (
        Reach-InOrder serialize size (routed.queue_reached target) ∙ routed.queue_pushed target,
        Rises-ids_at target s.producer.entered (strict-Rises select routed.producer_reached),
      )
