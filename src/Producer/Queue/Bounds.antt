-- ===== src/Producer/Queue/Bounds.antt =====
-- The sizes of batches.
use mofka.Prelude.{
  length-append, Bool-cases, Bytes, ℕ, ◌+◌, ◌≤◌, ◌<◌, ◌≡◌, refl, ◌≢◌, inl, inr, List, [], ◌∷◌, ◌++◌,
  arith,
}
use mofka.Producer.Batch.{Event, ProducerBatch, empty_batch, count}
use mofka.Producer.Batch
use mofka.Producer.Queue.{
  adaptive_size, BatchQueue, back_count, change_back, is_full, with_room, push, at_least_one,
}

-- Every batch but the last is full, and the last is not empty and no larger than the batch size.
abbrev pub Filled : {P : Type 0} → ℕ → List (ProducerBatch P) → Type 0
Filled n [] = Unit {0}
Filled n (b ∷ []) = (0 < count b) × (count b ≤ n)
Filled n (b ∷ c ∷ bs) = (count b ≡ n) × Filled n (c ∷ bs)

empty-count : (P : Type 0) → count (empty_batch {P = P}) ≡ 0
unfolding count empty_batch
empty-count P = refl

module _ {P : Type 0} where
  -- A list with an entry.
  abbrev IsCons : List (ProducerBatch P) → Type 0
  IsCons bs = (b : ProducerBatch P) × (cs : List (ProducerBatch P)) × (bs ≡ b ∷ cs)

  with_room-cons :
      (n : ℕ) (b c : ProducerBatch P) (bs : List (ProducerBatch P))
      → with_room n (b ∷ c ∷ bs) ≡ b ∷ with_room n (c ∷ bs)
  unfolding with_room is_full back_count
  with_room-cons n b c bs = ground arith

  with_room-IsCons :
      (n : ℕ) (b : ProducerBatch P) (bs : List (ProducerBatch P)) → IsCons (with_room n (b ∷ bs))
  unfolding with_room
  with_room-IsCons n b bs = elim (Bool-cases (is_full n (b ∷ bs))) [
    | inl full ↦ (b, bs ++ (empty_batch ∷ []), rw full)
    | inr room ↦ (b, bs, rw room)
  ]

  change_back-IsCons :
      (f : ProducerBatch P → ProducerBatch P) (bs : List (ProducerBatch P))
      → IsCons bs
      → IsCons (change_back f bs)
  unfolding change_back
  change_back-IsCons f [] (b, cs, e) = cc
  change_back-IsCons f (b ∷ []) h = (f b, [], refl)
  change_back-IsCons f (b ∷ c ∷ bs) h = (b, change_back f (c ∷ bs), refl)

  change_back-cons :
      (f : ProducerBatch P → ProducerBatch P) (b : ProducerBatch P) (bs : List (ProducerBatch P))
      → IsCons bs
      → change_back f (b ∷ bs) ≡ b ∷ change_back f bs
  unfolding change_back
  change_back-cons f b bs (c, cs, e) = rw e

  Filled-cons :
      (n : ℕ) (b : ProducerBatch P) (bs : List (ProducerBatch P))
      → IsCons bs
      → count b ≡ n
      → Filled n bs
      → Filled n (b ∷ bs)
  Filled-cons n b [] (c, cs, e) h f = cc
  Filled-cons n b (c ∷ bs) e h f = (h, f)

module _ {M P : Type 0} (serialize : M → Bytes → Bytes) where
  push-count :
      (e : Event M P) (b : ProducerBatch P) → count (Batch.push serialize e b) ≡ count b + 1
  unfolding Batch.push count
  push-count e b = length-append b.meta_sizes _

  -- The back of `bs` gets the event, or a new batch does.
  push_full :
      (n : ℕ) (e : Event M P) (b : ProducerBatch P) (bs : List (ProducerBatch P))
      → 0 < n
      → n ≢ adaptive_size
      → Filled n (b ∷ bs)
      → Filled n (change_back (Batch.push serialize e) (with_room n (b ∷ bs)))
  unfolding change_back with_room is_full back_count
  push_full n e b [] p a f = ground (arith, push-count e b, push-count e empty_batch, empty-count P)
  push_full n e b (c ∷ bs) p a f =
      let room = with_room-IsCons n c bs in
      rw (with_room-cons n b c bs, change_back-cons _ b (with_room n (c ∷ bs)) room)
        (Filled-cons n b _ (change_back-IsCons _ _ room) f.0 (push_full n e c bs p a f.1))

  push_fresh :
      (n : ℕ) (e : Event M P)
      → 0 < n
      → Filled n (change_back (Batch.push serialize e) (with_room n (at_least_one [])))
  unfolding change_back with_room is_full back_count at_least_one
  push_fresh n e p = ground (arith, push-count e empty_batch, empty-count P)

  -- With a batch size other than 0 and adaptive, every push keeps all batches but the last full, and
  -- the last within the batch size.
  pub push-Filled :
      (e : Event M P) (q : BatchQueue P)
      → 0 < q.batch_size
      → q.batch_size ≢ adaptive_size
      → Filled q.batch_size q.batch_queue
      → Filled q.batch_size (push serialize e q).0.batch_queue
  unfolding push at_least_one
  push-Filled e q p a f = filled q.batch_queue f
    where
      filled :
          (bs : List (ProducerBatch P))
          → Filled q.batch_size bs
          → Filled q.batch_size
              (change_back (Batch.push serialize e) (with_room q.batch_size (at_least_one bs)))
      filled [] f = push_fresh q.batch_size e p
      filled (b ∷ bs) f = push_full q.batch_size e b bs p a f
