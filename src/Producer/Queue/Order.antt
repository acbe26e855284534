-- ===== src/Producer/Queue/Order.antt =====
-- No event is lost, doubled or overtaken on its way through the queue.
use mofka.Prelude.{
  Bool-cases, Bytes, ℕ, ◌≡◌, refl, sym, ap, ◌∙◌, inl, inr, true, false, Option, none, some, List,
  [], ◌∷◌, ◌++◌, append-nil, append_assoc, arith,
}
use mofka.Producer.Batch.{Event, ProducerBatch, empty_batch}
use mofka.Producer.Batch
use mofka.Producer.Queue.{
  System, BatchQueue, change_back, push, at_least_one, is_full, with_room, flush, stop, taken,
  take_batch, after_send, Step, pushes, flushes, stops, begins, takes, sends, ends, initial,
  is_empty, goes_on, Reach, here, next, start,
}

module _ {P : Type 0} where
  -- The promises of the events of some batches.
  abbrev pub promises_of : List (ProducerBatch P) → List P
  promises_of [] = []
  promises_of (b ∷ bs) = b.promises ++ promises_of bs

  abbrev pub in_sending : Option (ProducerBatch P) → List P
  in_sending none = []
  in_sending (some b) = b.promises

  -- The events sent, the ones being sent and those in the queue are those pushed, in their order.
  abbrev pub InOrder : System P → Type 0
  InOrder s =
      promises_of s.sent ++ (in_sending s.sending ++ promises_of s.queue.batch_queue) ≡ s.pushed

  promises_of-append :
      (xs ys : List (ProducerBatch P)) → promises_of (xs ++ ys) ≡ promises_of xs ++ promises_of ys
  promises_of-append [] ys = refl
  promises_of-append (x ∷ xs) ys =
      rw (promises_of-append xs ys)
        (sym (append_assoc x.promises (promises_of xs) (promises_of ys)))

empty-promises_of :
    {P : Type 0} (bs : List (ProducerBatch P)) → is_empty bs ≡ true → promises_of bs ≡ []
unfolding is_empty
empty-promises_of [] h = refl
empty-promises_of (b ∷ bs) h = cc

module _ {M P : Type 0} (serialize : M → Bytes → Bytes) where
  push-promises :
      (e : Event M P) (b : ProducerBatch P)
      → (Batch.push serialize e b).promises ≡ b.promises ++ (e.promise ∷ [])
  unfolding Batch.push
  push-promises e b = refl

  change_back-promises :
      (e : Event M P) (b : ProducerBatch P) (bs : List (ProducerBatch P))
      → promises_of (change_back (Batch.push serialize e) (b ∷ bs))
        ≡ promises_of (b ∷ bs) ++ (e.promise ∷ [])
  unfolding change_back
  change_back-promises e b [] = rw (push-promises e b) (
      append-nil (b.promises ++ (e.promise ∷ []))
      ∙ ap (λ r. r ++ (e.promise ∷ [])) (sym (append-nil b.promises)))
  change_back-promises e b (c ∷ bs) =
      rw (change_back-promises e c bs)
        (sym (append_assoc b.promises (promises_of (c ∷ bs)) (e.promise ∷ [])))

  empty-promises :
      (bs : List (ProducerBatch P)) → promises_of (bs ++ (empty_batch ∷ [])) ≡ promises_of bs
  unfolding empty_batch
  empty-promises bs = promises_of-append bs (empty_batch ∷ []) ∙ append-nil (promises_of bs)

  with_room-promises :
      (n : ℕ) (b : ProducerBatch P) (bs : List (ProducerBatch P))
      → (c : ProducerBatch P) × (cs : List (ProducerBatch P)) × (with_room n (b ∷ bs) ≡ c ∷ cs)
        × (promises_of (c ∷ cs) ≡ promises_of (b ∷ bs))
  unfolding with_room is_full
  with_room-promises n b bs = elim (Bool-cases (is_full n (b ∷ bs))) [
    | inl full ↦ (b, bs ++ (empty_batch ∷ []), rw full, empty-promises (b ∷ bs))
    | inr room ↦ (b, bs, rw room, refl)
  ]

  at_least_one-promises :
      (bs : List (ProducerBatch P))
      → (c : ProducerBatch P) × (cs : List (ProducerBatch P)) × (at_least_one bs ≡ c ∷ cs)
        × (promises_of (c ∷ cs) ≡ promises_of bs)
  unfolding at_least_one empty_batch
  at_least_one-promises [] = (empty_batch, [], refl, refl)
  at_least_one-promises (b ∷ bs) = (b, bs, refl, refl)

  -- A push adds the event behind all that are in the queue, whichever batch takes it.
  pub push-promises_of :
      (e : Event M P) (q : BatchQueue P)
      → promises_of (push serialize e q).0.batch_queue
        ≡ promises_of q.batch_queue ++ (e.promise ∷ [])
  unfolding push
  push-promises_of e q =
      let (b, bs, one, same) = at_least_one-promises q.batch_queue in
      let (c, cs, room, kept) = with_room-promises q.batch_size b bs in
      rw (one, room, change_back-promises e c cs) (ap (λ r. r ++ (e.promise ∷ [])) (kept ∙ same))

  take-promises :
      (q : BatchQueue P) (bs : List (ProducerBatch P))
      → q.batch_queue ≡ bs
      → in_sending (take_batch q).0 ++ promises_of (take_batch q).1.batch_queue ≡ promises_of bs
  unfolding take_batch taken
  take-promises q [] h = rw (h, taken)
  take-promises q (b ∷ bs) h = rw (h, taken)

  flush-batch_queue : (q : BatchQueue P) → (flush q).batch_queue ≡ q.batch_queue
  unfolding flush
  flush-batch_queue q = ground arith

  stop-batch_queue : (q : BatchQueue P) → (stop q).batch_queue ≡ q.batch_queue
  unfolding stop
  stop-batch_queue q = ground arith

  pub Step-InOrder : {s t : System P} → Step serialize s t → InOrder s → InOrder t
  unfolding after_send
  Step-InOrder {s} (pushes e) h = rw (push-promises_of e s.queue) (rw (← h) (simp append_assoc))
  Step-InOrder {s} flushes h = rw (flush-batch_queue s.queue) h
  Step-InOrder {s} stops h = rw (stop-batch_queue s.queue) h
  Step-InOrder (begins r) h = h
  Step-InOrder {s} (takes r idle g w) h =
      rw (take-promises s.queue s.queue.batch_queue refl) (rw idle at h)
  Step-InOrder {s} (sends b e) h =
      let here : promises_of s.sent ++ (b.promises ++ promises_of s.queue.batch_queue) ≡ s.pushed =
        rw e at h in
      rw (promises_of-append s.sent (b ∷ [])) (simp (append-nil, append_assoc) here)
  Step-InOrder (ends r idle g) h = h

  -- In every state that pushes, flushes, stops and the sending thread can lead to, the events sent,
  -- the ones being sent and the ones in the queue are together the events pushed, in their order.
  pub Reach-InOrder : (size : ℕ) {s : System P} → Reach serialize (start size) s → InOrder s
  unfolding initial
  Reach-InOrder size here = refl
  Reach-InOrder size (next r st) = Step-InOrder st (Reach-InOrder size r)

  -- In every state that can be reached where the loop ends, with no batch being sent, every
  -- event pushed so far has been sent, in the order of the pushes.
  pub ends-sent :
      (size : ℕ) {s : System P}
      → Reach serialize (start size) s
      → s.sending ≡ none
      → goes_on s.queue ≡ false
      → promises_of s.sent ≡ s.pushed
  unfolding goes_on
  ends-sent size {s = s} r idle over =
      let left : promises_of s.queue.batch_queue ≡ [] =
        empty-promises_of s.queue.batch_queue (ground arith) in
      let order : promises_of s.sent ++ ([] ++ promises_of s.queue.batch_queue) ≡ s.pushed =
        rw idle at (Reach-InOrder size r) in
      sym (append-nil (promises_of s.sent)) ∙ rw left at order
