-- ===== src/TopicManager/Memory/Feed.antt =====
-- What a consumer of the topic in memory is fed.
use mofka.TopicManager.Loop.{feed_loop, fed_or_wait}
use mofka.Prelude.{
  length, take, drop, length-take, length-drop, lengths, length-lengths, ◌==◌, if◌then◌else◌, IsU64,
  sub64, ℕ, zero, suc, ◌+◌, ◌-◌, ◌%◌, ◌^◌, ◌≤◌, ◌<◌, min, String, ◌≡◌, refl, ap, Bool, true, false,
  none, some, List, [], ◌∷◌, arith,
}
use mofka.Rdma.{Rdma}
use mofka.TopicManager.{Cursors, fed_of, cursor_of}
use mofka.TopicManager.Memory.{feed_events, feed_once, MemoryTopic, feed_rounds, feed_consumer}
use mofka.TopicManager.Memory.Log.{
  Stored, metadatas, contents, descriptors, topic_of, length-metadatas, length-contents,
  length-descriptors,
}
use mofka.TopicManager.Slices.{slice_lem, lengths-take, lengths-drop}
use mofka.TopicManager.Memory.Receive.{first_id_lem}

pub metadatas-take : (n : ℕ) (es : List Stored) → metadatas (take n es) ≡ take n (metadatas es)
metadatas-take zero es = refl
metadatas-take (suc n) [] = refl
metadatas-take (suc n) (e ∷ es) = ap (λ r. e.metadata ∷ r) (metadatas-take n es)

pub metadatas-drop : (n : ℕ) (es : List Stored) → metadatas (drop n es) ≡ drop n (metadatas es)
metadatas-drop zero es = refl
metadatas-drop (suc n) [] = refl
metadatas-drop (suc n) (e ∷ es) = metadatas-drop n es

module _ (R : Rdma) where
  feed_events-topic_of :
      (num first_id : ℕ) (address : String) (es : List Stored) (cursors : Cursors)
      → first_id + num ≤ length es
      → 1 ≤ num
      → feed_events R num first_id address (topic_of es cursors)
        ≡ fed_of R first_id
            (metadatas (take num (drop first_id es)))
            (take num (drop first_id (descriptors 0 (lengths (contents es)))))
            address
  unfolding feed_events topic_of
  feed_events-topic_of num first_id address es cursors h k =
      let descs = descriptors 0 (lengths (contents es)) in
      let count : num ≡ length (take num (drop first_id (metadatas es))) = omega (
        arith,
        length-take num (drop first_id (metadatas es)),
        length-drop first_id (metadatas es),
        length-metadatas es,
      ) in
      let in_metadatas : first_id < length (lengths (metadatas es)) =
        omega (arith, length-lengths (metadatas es), length-metadatas es) in
      let in_descs : first_id < length (lengths descs) = omega (
        arith,
        length-lengths descs,
        length-descriptors 0 (lengths (contents es)),
        length-lengths (contents es),
        length-contents es,
      ) in
      rw (slice_lem num first_id (metadatas es) in_metadatas, slice_lem num first_id descs in_descs)
        (rw (metadatas-take num (drop first_id es), metadatas-drop first_id es)
          (rw (
            ← count,
            lengths-take num (drop first_id (metadatas es)),
            lengths-drop first_id (metadatas es),
            lengths-take num (drop first_id descs),
            lengths-drop first_id descs,
          )))

  -- A consumer that is behind the log is fed events from its position on, as many as there are
  -- up to the size of a batch: the references are into handles with exactly the metadata of
  -- those events, and the saved descriptors of their data. The size of a batch is not 0, and
  -- the number of events fits into 64 bits.
  pub feed_once-topic_of :
      (batch_size first_id : ℕ) (address : String) (es : List Stored) (cursors : Cursors)
      → 1 ≤ batch_size
      → first_id < length es
      → IsU64 (length es)
      → let num = min batch_size (length es - first_id) in
        feed_once R batch_size first_id address (topic_of es cursors)
        ≡ some (
            fed_of R first_id
              (metadatas (take num (drop first_id es)))
              (take num (drop first_id (descriptors 0 (lengths (contents es)))))
              address)
  unfolding feed_once
  feed_once-topic_of batch_size first_id address es cursors b f u =
      let num = min batch_size (length es - first_id) in
      let available : sub64 (length es) first_id ≡ length es - first_id = omega arith in
      let some_left : (num == 0) ≡ false = ground arith in
      rw (first_id_lem es cursors, available)
        (rw some_left (
          ap some
            (feed_events-topic_of num first_id address es cursors (omega arith) (omega arith))))

  -- A consumer at the end of the log waits.
  pub feed_once_waits :
      (batch_size : ℕ) (address : String) (es : List Stored) (cursors : Cursors)
      → feed_once R batch_size (length es) address (topic_of es cursors) ≡ none
  unfolding feed_once
  feed_once_waits batch_size address es cursors =
      let available : sub64 (length es) (length es) ≡ 0 = ground arith in
      let nothing : min batch_size 0 ≡ 0 = omega arith in
      rw (first_id_lem es cursors, available) (rw nothing)

  feed_rounds-feed_loop :
      (batch_size first_id : ℕ) (address : String) (rounds : List (Bool × MemoryTopic))
      → feed_rounds R batch_size first_id address rounds
        ≡ feed_loop (λ id t. feed_once R batch_size id address t) first_id rounds
  unfolding feed_rounds feed_loop
  feed_rounds-feed_loop batch_size first_id address [] = refl
  feed_rounds-feed_loop batch_size first_id address ((true, t) ∷ rounds) = refl
  feed_rounds-feed_loop batch_size first_id address ((false, t) ∷ rounds) =
      fed_or_wait (feed_once R batch_size first_id address t) _ _ _ _
        (feed_rounds-feed_loop batch_size first_id address rounds)
        (λ fed. feed_rounds-feed_loop batch_size ((first_id + fed.count) % 2 ^ 64) address rounds)

  -- feedConsumer runs the loop from the consumer's position on.
  pub feed_consumer-feed_loop :
      (name : String) (batch_size : ℕ) (address : String) (cursors : Cursors)
      (rounds : List (Bool × MemoryTopic))
      → feed_consumer R name batch_size address cursors rounds
        ≡ feed_loop
            (λ first_id t.
              feed_once R (if batch_size == 0 then 2 ^ 64 - 1 else batch_size) first_id address t)
            (cursor_of name cursors)
            rounds
  unfolding feed_consumer
  feed_consumer-feed_loop name batch_size address cursors rounds =
      feed_rounds-feed_loop (if batch_size == 0 then 2 ^ 64 - 1 else batch_size)
        (cursor_of name cursors) address rounds
