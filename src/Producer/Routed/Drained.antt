-- ===== src/Producer/Routed/Drained.antt =====
-- Nothing that was pushed is left behind.
use mofka.Producer.Push.Ids.{contains-length, contains-append, contains-remove}
use mofka.Producer.Queue.Order.{promises_of, in_sending, Reach-InOrder}
use mofka.Producer.Routed.{Routed, new_producer, Reachable}
use mofka.Producer.Batch.{Event}
use mofka.Producer.Push.Turns.{Reach-Counted}
use mofka.Producer.Routed.Order.{ids_at, ids_at-append, Reachable-IsRouted}
use mofka.Prelude.{
  Outcome, ◌==◌, if◌then◌else◌, Bytes, returns, ℕ, ◌<◌, ◌≡◌, sym, ap, ◌∙◌, ◌≢◌, ◌⊎◌, inl, inr, true,
  none, List, [], ◌∷◌, ◌++◌, map, append-nil, arith, dec_lt, ℕ_discrete,
}
use mofka.Producer.Push.{contains, ProducerImpl, enter, fail, Ordering, may_flush}
use mofka.Producer.Push

contains-last : (i : ℕ) (js : List ℕ) → contains i (js ++ (i ∷ [])) ≡ true
unfolding contains
contains-last i [] = ground arith
contains-last i (j ∷ js) = ground (arith, contains-last i js)

module _ (select : ℕ → Outcome ℕ) where
  -- An event that is to go to a target is still posted or has entered the queue of this target.
  Accounted : ProducerImpl ℕ → ℕ → ℕ → Type 0
  Accounted p i target =
      (contains i p.posted ≡ true) ⊎ (contains i (ids_at target p.entered) ≡ true)

  entered_last :
      (i target t j : ℕ) (es : List (ℕ × ℕ))
      → i ≡ j
      → t ≡ target
      → contains i (ids_at target es ++ (if t == target then j ∷ [] else [])) ≡ true
  entered_last i target t j es now at =
      let there : (t == target) ≡ true = ground arith in
      rw (there, ← now) (contains-last i (ids_at target es))

  Step-Accounted :
      (i target : ℕ) {p q : ProducerImpl ℕ}
      → select i ≡ returns target
      → Push.Step select p q
      → (i < p.num_pushed_events → Accounted p i target)
      → i < q.num_pushed_events
      → Accounted q i target
  unfolding Push.push enter fail Accounted
  Step-Accounted i target {p} v Push.pushes before h = elim (dec_lt i p.num_pushed_events) [
    | yes earlier ↦ elim (before earlier) [
      | inl posted ↦ inl (contains-append i p.posted (p.num_pushed_events ∷ []) posted)
      | inr entered ↦ inr entered
    ]
    | no new ↦
        let e : i ≡ p.num_pushed_events = omega arith in inl (rw (← e) (contains-last i p.posted))
  ]
  Step-Accounted i target {p} v (Push.enters j t w u turn) before h = elim (before h) [
    | inl posted ↦ elim (ℕ_discrete i j) [
      | yes now ↦
          let at : t ≡ target = ground (arith, ap select now) in
          inr (rw (ids_at-append target t j p.entered) (entered_last i target t j p.entered now at))
      | no other ↦ inl (contains-remove i j p.posted other posted)
    ]
    | inr entered ↦ inr (
        rw (ids_at-append target t j p.entered)
          (contains-append i (ids_at target p.entered) _ entered))
  ]
  Step-Accounted i target {p} v (Push.fails j ex w u) before h = elim (before h) [
    | inl posted ↦
        let apart : i ≢ j = λ e. ground (arith, ap select e) in
        inl (contains-remove i j p.posted apart posted)
    | inr entered ↦ inr entered
  ]

  Reach-Accounted :
      (ordering : Ordering) (i target : ℕ) {p : ProducerImpl ℕ}
      → select i ≡ returns target
      → Push.Reach select (Push.initial ordering) p
      → i < p.num_pushed_events
      → Accounted p i target
  unfolding Push.initial
  Reach-Accounted ordering i target v Push.here h = absurd (omega arith)
  Reach-Accounted ordering i target v (Push.next r st) h =
      Step-Accounted i target v st (Reach-Accounted ordering i target v r) h

  entered_all :
      (ordering : Ordering) (i target : ℕ) {p : ProducerImpl ℕ}
      → select i ≡ returns target
      → Push.Reach select (Push.initial ordering) p
      → i < p.num_pushed_events
      → may_flush p ≡ true
      → contains i (ids_at target p.entered) ≡ true
  unfolding may_flush Accounted
  entered_all ordering i target {p = p} v r h done =
      let counted = Reach-Counted select ordering r in
      elim (Reach-Accounted ordering i target v r h) [
        | inl posted ↦ ground (arith, contains-length i p.posted posted)
        | inr entered ↦ entered
      ]

module _ {M P : Type 0} (serialize : M → Bytes → Bytes) (select : ℕ → Outcome ℕ)
    (event : ℕ → Event M P) where
  -- When no ULT is left, which is what a flush of the producer waits for, and the queue of a target is
  -- empty with no batch being sent, then what was sent to the target are the promises of events among
  -- which is every event that was pushed, is valid and goes to this target; under either ordering.
  pub drained-sent :
      (ordering : Ordering) (size target i : ℕ) {s : Routed P}
      → Reachable serialize select event (new_producer ordering size) s
      → i < s.producer.num_pushed_events
      → select i ≡ returns target
      → may_flush s.producer ≡ true
      → (s.queues target).sending ≡ none
      → (s.queues target).queue.batch_queue ≡ []
      → (js : List ℕ) × (promises_of (s.queues target).sent ≡ map (λ j. (event j).promise) js)
        × (contains i js ≡ true)
  drained-sent ordering size target i {s = s} r h v done idle empty =
      let routed = Reachable-IsRouted serialize select event ordering size r in
      let q = s.queues target in
      let order : promises_of q.sent ++ (in_sending q.sending ++ promises_of q.queue.batch_queue)
          ≡ q.pushed =
        Reach-InOrder serialize size (routed.queue_reached target) in
      let all : promises_of q.sent ≡ q.pushed =
        sym (append-nil (promises_of q.sent)) ∙ rw (idle, empty) at order in
      (
        ids_at target s.producer.entered,
        all ∙ routed.queue_pushed target,
        entered_all select ordering i target v routed.producer_reached h done,
      )
