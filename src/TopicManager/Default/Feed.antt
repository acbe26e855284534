-- ===== src/TopicManager/Default/Feed.antt =====
-- What a consumer of the default topic is fed.
use mofka.TopicManager.Slices.{slice_lem, lengths-take, lengths-drop}
use mofka.TopicManager.{Cursors, fed_of, cursor_of}
use mofka.TopicManager.Default.Log.{topic_with, first_id_lem}
use mofka.Rdma.{Rdma}
use mofka.Prelude.{
  length, take, drop, length-take, length-drop, lengths, length-lengths, ◌==◌, if◌then◌else◌, Bytes,
  IsU64, sub64, ℕ, ◌+◌, ◌-◌, ◌%◌, ◌^◌, ◌≤◌, ◌<◌, min, String, ◌≡◌, refl, ap, Bool, true, false,
  none, some, List, [], ◌∷◌, arith,
}
use mofka.TopicManager.Default.{feed_events, feed_once, DefaultTopic, feed_rounds, feed_consumer}
use mofka.TopicManager.Loop.{feed_loop, fed_or_wait}

module _ (R : Rdma) where
  pub feed_events-topic_with :
      (num first_id : ℕ) (address : String) (ms descs : List Bytes) (cursors : Cursors)
      → first_id + num ≤ length ms
      → length ms ≡ length descs
      → 1 ≤ num
      → feed_events R num first_id address (topic_with ms descs cursors)
        ≡ fed_of R first_id (take num (drop first_id ms)) (take num (drop first_id descs)) address
  unfolding feed_events topic_with
  feed_events-topic_with num first_id address ms descs cursors h e k =
      let count : num ≡ length (take num (drop first_id ms)) =
        omega (arith, length-take num (drop first_id ms), length-drop first_id ms) in
      let in_metadatas : first_id < length (lengths ms) = omega (arith, length-lengths ms) in
      let in_descs : first_id < length (lengths descs) = omega (arith, length-lengths descs) in
      rw (slice_lem num first_id ms in_metadatas, slice_lem num first_id descs in_descs)
        (rw (
          ← count,
          lengths-take num (drop first_id ms),
          lengths-drop first_id ms,
          lengths-take num (drop first_id descs),
          lengths-drop first_id descs,
        ))

  -- A consumer that is behind the log of the default topic is fed events from its position on, as many
  -- as there are up to the size of a batch: the references are into handles with exactly the metadata
  -- of those events, and their saved descriptors. The log has a descriptor for each event, the size of
  -- a batch is not 0, and the number of events fits into 64 bits.
  pub feed_once-topic_with :
      (batch_size first_id num : ℕ) (address : String) (ms descs : List Bytes) (cursors : Cursors)
      → 1 ≤ batch_size
      → first_id < length ms
      → length ms ≡ length descs
      → IsU64 (length ms)
      → num ≡ min batch_size (length ms - first_id)
      → feed_once R batch_size first_id address (topic_with ms descs cursors)
        ≡ some (
            fed_of R first_id
              (take num (drop first_id ms))
              (take num (drop first_id descs))
              address)
  unfolding feed_once
  feed_once-topic_with batch_size first_id num address ms descs cursors b f e u n =
      let available : sub64 (length ms) first_id ≡ length ms - first_id = omega arith in
      let some_left : (num == 0) ≡ false = ground arith in
      rw (first_id_lem ms descs cursors, available)
        (rw (← n) (
          rw some_left (
            ap some (
              feed_events-topic_with num first_id address ms descs cursors (omega arith) e
                (omega arith)))))

  -- A consumer at the end of the log waits.
  pub feed_once-topic_with_waits :
      (batch_size : ℕ) (address : String) (ms descs : List Bytes) (cursors : Cursors)
      → feed_once R batch_size (length ms) address (topic_with ms descs cursors) ≡ none
  unfolding feed_once
  feed_once-topic_with_waits batch_size address ms descs cursors =
      let available : sub64 (length ms) (length ms) ≡ 0 = ground arith in
      let nothing : min batch_size 0 ≡ 0 = omega arith in
      rw (first_id_lem ms descs cursors, available) (rw nothing)

  feed_rounds-feed_loop :
      (batch_size first_id : ℕ) (address : String) (rounds : List (Bool × DefaultTopic))
      → feed_rounds R batch_size first_id address rounds
        ≡ feed_loop (λ id t. feed_once R batch_size id address t) first_id rounds
  unfolding feed_rounds feed_loop
  feed_rounds-feed_loop batch_size first_id address [] = refl
  feed_rounds-feed_loop batch_size first_id address ((true, t) ∷ rounds) = refl
  feed_rounds-feed_loop batch_size first_id address ((false, t) ∷ rounds) =
      fed_or_wait (feed_once R batch_size first_id address t) _ _ _ _
        (feed_rounds-feed_loop batch_size first_id address rounds)
        (λ fed. feed_rounds-feed_loop batch_size ((first_id + fed.count) % 2 ^ 64) address rounds)

  -- feedConsumer runs the loop from the consumer's position on.
  pub feed_consumer-feed_loop :
      (name : String) (batch_size : ℕ) (address : String) (cursors : Cursors)
      (rounds : List (Bool × DefaultTopic))
      → feed_consumer R name batch_size address cursors rounds
        ≡ feed_loop
            (λ first_id t.
              feed_once R (if batch_size == 0 then 2 ^ 64 - 1 else batch_size) first_id address t)
            (cursor_of name cursors)
            rounds
  unfolding feed_consumer
  feed_consumer-feed_loop name batch_size address cursors rounds =
      feed_rounds-feed_loop (if batch_size == 0 then 2 ^ 64 - 1 else batch_size)
        (cursor_of name cursors) address rounds
