-- ===== src/Producer/Push/Turns.antt =====
-- The order in which events enter the queues, and who may wait for ever.
use mofka.Producer.Push.Ids.{
  ids, ids-append, Rises, Rises-append, contains-remove, contains-append, length-remove,
  contains-length, range, Below, Below-mono, length-ids, length-range, range-add-one,
}
use mofka.Prelude.{
  Outcome, length, length-append, All-append, returns, throws, ℕ, ◌+◌, ◌<◌, String, ◌≡◌, refl, sym,
  ap, ap₂, ◌∙◌, ◌≢◌, true, false, [], ◌∷◌, ◌++◌, arith,
}
use mofka.Producer.Push.{
  ProducerImpl, Ordering, strict, contains, initial, push, has_turn, enter, fail, Step, pushes,
  enters, fails, Reach, here, next, may_flush,
}

module _ {T : Type 0} (select : ℕ → Outcome T) where
  -- The counters count.
  pub record Counted (p : ProducerImpl T) : Type 0 where
    pub posted_counted : p.num_posted_ults ≡ length p.posted
    pub ready_counted : p.num_ready_events ≡ length p.entered + length p.failed
    pub pushed_counted : p.num_pushed_events ≡ p.num_ready_events + length p.posted

  Step-Counted : {p q : ProducerImpl T} → Step select p q → Counted p → Counted q
  unfolding push enter fail
  Step-Counted {p} pushes c = ground (arith, length-append p.posted (p.num_pushed_events ∷ []))
  Step-Counted {p} (enters i target h s t) c =
      ground (arith, length-remove i p.posted, length-append p.entered ((target, i) ∷ []))
  Step-Counted {p} (fails i ex h s) c =
      ground (arith, length-remove i p.posted, length-append p.failed ((i, ex) ∷ []))

  -- In every state that can be reached, the ULTs posted are counted, every event that got ready
  -- has entered a queue or failed, and every event pushed is ready or still posted.
  pub Reach-Counted :
      (ordering : Ordering) {p : ProducerImpl T} → Reach select (initial ordering) p → Counted p
  unfolding initial
  Reach-Counted ordering here = record {
    posted_counted = refl;
    ready_counted = refl;
    pushed_counted = refl;
  }
  Reach-Counted ordering (next r st) = Step-Counted st (Reach-Counted ordering r)

  -- A ULT that is posted with an event that is valid, but whose turn has passed.
  abbrev pub Stuck : ℕ → ProducerImpl T → Type 0
  Stuck i p = (p.ordering ≡ strict) × (contains i p.posted ≡ true) × (i < p.num_ready_events)

  Step-Stuck :
      (i : ℕ) (target : T) {p q : ProducerImpl T}
      → select i ≡ returns target
      → Step select p q
      → Stuck i p
      → Stuck i q
  unfolding push enter fail has_turn
  Step-Stuck i target {p} v pushes s =
      ground (arith, contains-append i p.posted (p.num_pushed_events ∷ []))
  Step-Stuck i target {p} v (enters j t h w turn) s = ground (arith, contains-remove i j p.posted)
  Step-Stuck i target {p} v (fails j ex h w) s = ground (arith, contains-remove i j p.posted)

  Reach-Stuck :
      (i : ℕ) (target : T) {p q : ProducerImpl T}
      → select i ≡ returns target
      → Reach select p q
      → Stuck i p
      → Stuck i q
  Reach-Stuck i target v here s = s
  Reach-Stuck i target v (next r st) s = Step-Stuck i target v st (Reach-Stuck i target v r s)

  Reach-Counted_from : {p q : ProducerImpl T} → Reach select p q → Counted p → Counted q
  Reach-Counted_from here c = c
  Reach-Counted_from (next r st) c = Step-Counted st (Reach-Counted_from r c)

  -- If, under strict ordering, another event fails while it is the turn of a valid event that
  -- is posted, the turn of that event is over: its ULT stays posted in every later state, and a
  -- flush waits for ever.
  pub fail_blocks :
      {p q : ProducerImpl T} (i j : ℕ) (target : T) (ex : String)
      → Reach select (initial strict) p
      → p.ordering ≡ strict
      → p.num_ready_events ≡ i
      → contains i p.posted ≡ true
      → select i ≡ returns target
      → contains j p.posted ≡ true
      → select j ≡ throws ex
      → Reach select (fail p j ex) q
      → (contains i q.posted ≡ true) × (may_flush q ≡ false)
  unfolding fail may_flush
  fail_blocks {p} {q} i j target ex past o turn hi vi hj vj later =
      let apart : i ≢ j = λ e. ground (arith, ap select e) in
      let stuck =
        Reach-Stuck i target vi later (o, contains-remove i j p.posted apart hi, omega arith) in
      let counted =
        Reach-Counted_from later (Step-Counted (fails j ex hj vj) (Reach-Counted strict past)) in
      (stuck.1, ground (arith, contains-length i q.posted stuck.1))

  -- The state under strict ordering: the ids entered rise and are below the counter.
  abbrev InTurn : ProducerImpl T → Type 0
  InTurn p = (p.ordering ≡ strict) × Rises p.entered × Below p.num_ready_events p.entered

  Step-InTurn : {p q : ProducerImpl T} → Step select p q → InTurn p → InTurn q
  unfolding push enter fail has_turn
  Step-InTurn pushes t = t
  Step-InTurn {p} (enters i target h v turn) t =
      let now : i ≡ p.num_ready_events = ground arith in
      (
        t.0,
        rw now (Rises-append target p.num_ready_events p.entered t.1 t.2),
        All-append {A = T × ℕ} (λ e. e.1 < p.num_ready_events + 1) p.entered _
            (Below-mono p.num_ready_events (p.num_ready_events + 1) p.entered (omega arith) t.2)
            (omega arith, tt),
      )
  Step-InTurn {p} (fails i ex h v) t =
      (t.0, t.1, Below-mono p.num_ready_events (p.num_ready_events + 1) p.entered (omega arith) t.2)

  Reach-InTurn : {p : ProducerImpl T} → Reach select (initial strict) p → InTurn p
  unfolding initial
  Reach-InTurn here = (refl, tt, tt)
  Reach-InTurn (next r st) = Step-InTurn st (Reach-InTurn r)

  -- Under strict ordering, in every state that pushes and the ULTs can lead to, the events have
  -- entered the queues in the order of their ids, whatever failed.
  pub strict-Rises : {p : ProducerImpl T} → Reach select (initial strict) p → Rises p.entered
  strict-Rises r = (Reach-InTurn r).1

  abbrev AllEntered : ProducerImpl T → Type 0
  AllEntered p = (p.ordering ≡ strict) × (ids p.entered ≡ range p.num_ready_events)

  Step-AllEntered :
      ((i : ℕ) (ex : String) → select i ≢ throws ex)
      → {p q : ProducerImpl T} → Step select p q
      → AllEntered p
      → AllEntered q
  unfolding push enter has_turn
  Step-AllEntered all pushes t = t
  Step-AllEntered all {p} (enters i target h v turn) t =
      let now : i ≡ p.num_ready_events = ground arith in
      (
        t.0,
        ids-append target i p.entered
            ∙ ap₂ (λ l n. l ++ (n ∷ [])) t.1 now
            ∙ sym (range-add-one p.num_ready_events),
      )
  Step-AllEntered all (fails i ex h v) t = absurd (all i ex v)

  Reach-AllEntered :
      ((i : ℕ) (ex : String) → select i ≢ throws ex)
      → {p : ProducerImpl T} → Reach select (initial strict) p
      → AllEntered p
  unfolding initial
  Reach-AllEntered all here = (refl, refl)
  Reach-AllEntered all (next r st) = Step-AllEntered all st (Reach-AllEntered all r)

  -- Under strict ordering, if no event can fail, the events that have entered the queues are 0,
  -- 1, 2 and so on, in this order, whatever the order in which their ULTs run.
  pub strict-range :
      ((i : ℕ) (ex : String) → select i ≢ throws ex)
      → {p : ProducerImpl T} → Reach select (initial strict) p
      → ids p.entered ≡ range (length p.entered)
  strict-range all {p} r =
      let entered = (Reach-AllEntered all r).1 in
      let same : p.num_ready_events ≡ length p.entered =
        omega (arith, ap length entered, length-ids p.entered, length-range p.num_ready_events) in
      entered ∙ ap range same
