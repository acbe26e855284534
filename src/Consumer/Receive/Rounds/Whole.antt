-- ===== src/Consumer/Receive/Rounds/Whole.antt =====
-- What a consumer receives over the whole of a feedConsumer, by any topic manager: the rounds of the
-- loop put together with the recvBatch of each RPC.
use mofka.Consumer.Receive.Delivery.{numbered}
use mofka.Consumer.Receive.Rounds.Ranges.{part, part-append}
use mofka.TopicManager.Loop.{feed_loop_waits, feed_loop, feed_loop_feeds}
use mofka.Consumer.Receive.Rounds.{receive_all, receive_all-cons, Prefixes, round_received}
use mofka.TopicManager.{Cursors, Fed, cursor_of}
use mofka.Prelude.{
  length, take, drop, replicate, length-take, length-drop, take_all, All, lengths, ◌==◌,
  if◌then◌else◌, Bytes, IsU64, ℕ, zero, suc, ◌+◌, ◌-◌, ◌%◌, ◌^◌, ◌≤◌, ◌<◌, min, String, ◌≡◌, refl,
  ap, ap₂, ◌∙◌, Bool, true, false, some, List, [], ◌∷◌, arith, dec_lt,
}
use mofka.TopicManager.Interface.{TopicManager, IsTopicManager}
use mofka.Rdma.{Rdma, IsRdma}

module _ (R : Rdma) where
  module _ (M : TopicManager R) (IsLog : (ms descs : List Bytes) → M.Topic → Type 0)
      (keeps : IsTopicManager R M IsLog) (ms descs : List Bytes) where
    module _ (batch_size : ℕ) (address : String) (law : IsRdma R) (sized : 1 ≤ batch_size)
        (paired : length ms ≡ length descs) (small : All IsU64 (lengths ms))
        (few : IsU64 (length ms)) where
      loop : ℕ → List (Bool × M.Topic) → List (Fed R.Bulk)
      loop = feed_loop (λ id t. M.feed_once batch_size id address t)

      -- One more round in front.
      round_first :
          (first_id k num m : ℕ) (t : M.Topic) (rounds : List (Bool × M.Topic))
          → IsLog (take k ms) (take k descs) t
          → first_id < k
          → k ≤ length ms
          → num ≡ min batch_size (k - first_id)
          → receive_all R (loop (first_id + num) rounds) ≡ some (part ms descs (first_id + num) m)
          → receive_all R (loop first_id ((false, t) ∷ rounds))
            ≡ some (part ms descs first_id (num + m))
      unfolding loop
      round_first first_id k num m t rounds is_log f h n later =
          let (fed, given, count, received) =
            round_received R M IsLog keeps ms descs batch_size first_id k num address t law small
              is_log sized f h few n in
          let next : (first_id + fed.count) % 2 ^ 64 ≡ first_id + num = omega (arith, count) in
          ap (receive_all R) (
            feed_loop_feeds (λ id u. M.feed_once batch_size id address u) first_id t rounds fed
              given)
          ∙ receive_all-cons R fed
              (feed_loop (λ id u. M.feed_once batch_size id address u)
                ((first_id + fed.count) % 2 ^ 64) rounds)
              (part ms descs first_id num) (part ms descs (first_id + num) m) received
              (rw next later)
          ∙ ap (λ xs. some xs) (part-append ms descs first_id num m paired few (omega arith))

      round_waits :
          (first_id k : ℕ) (t : M.Topic) (rounds : List (Bool × M.Topic))
          → IsLog (take k ms) (take k descs) t
          → first_id ≡ k
          → k ≤ length ms
          → loop first_id ((false, t) ∷ rounds) ≡ loop first_id rounds
      unfolding loop
      round_waits first_id k t rounds is_log e h =
          let end : length (take k ms) ≡ first_id = omega (arith, length-take k ms) in
          feed_loop_waits (λ id u. M.feed_once batch_size id address u) first_id t rounds
            (rw end at (keeps.waits batch_size address (take k ms) (take k descs) t is_log))

      loop_received :
          (first_id low : ℕ) (rounds : List (Bool × M.Topic))
          → first_id ≤ low
          → low ≤ length ms
          → Prefixes R M IsLog keeps ms descs low rounds
          → (n : ℕ) × (first_id + n ≤ length ms)
            × (receive_all R (loop first_id rounds) ≡ some (part ms descs first_id n))
      unfolding loop receive_all feed_loop
      loop_received first_id low [] f l p = (0, omega arith, refl)
      loop_received first_id low ((true, t) ∷ rounds) f l p = (0, omega arith, refl)
      loop_received first_id low ((false, t) ∷ rounds) f l (k, above, below, is_log, later) =
          elim (dec_lt first_id k) [
            | yes behind ↦
                let num = min batch_size (k - first_id) in
                let (m, fits, received) =
                  loop_received (first_id + num) k rounds (omega arith) below later in
                (
                  num + m,
                  omega arith,
                  round_first first_id k num m t rounds is_log behind below refl received,
                )
            | no at_end ↦
                let (m, fits, received) =
                  loop_received first_id k rounds (omega arith) below later in
                (
                  m,
                  fits,
                  ap (receive_all R) (round_waits first_id k t rounds is_log (omega arith) below)
                      ∙ received,
                )
          ]

      -- Rounds that all find the whole log.
      loop_catches_up :
          (first_id n : ℕ) (t : M.Topic)
          → IsLog ms descs t
          → first_id ≤ length ms
          → length ms ≤ first_id + n
          → receive_all R (loop first_id (replicate n (false, t)))
            ≡ some (part ms descs first_id (length ms - first_id))
      unfolding loop receive_all feed_loop
      loop_catches_up first_id zero t is_log f h =
          let none_left : length ms - first_id ≡ 0 = omega arith in rw none_left refl
      loop_catches_up first_id (suc n) t is_log f h =
          let whole : IsLog (take (length ms) ms) (take (length ms) descs) t =
            rw (take_all (length ms) ms (omega arith), take_all (length ms) descs (omega arith))
              is_log in
          elim (dec_lt first_id (length ms)) [
            | yes behind ↦
                let num = min batch_size (length ms - first_id) in
                let all : num + (length ms - (first_id + num)) ≡ length ms - first_id =
                  omega arith in
                let fed =
                  round_first first_id (length ms) num (length ms - (first_id + num)) t
                    (replicate n (false, t)) whole behind (omega arith) refl
                    (loop_catches_up (first_id + num) n t is_log (omega arith) (omega arith)) in
                rw all at fed
            | no at_end ↦
                ap (receive_all R) (
                  round_waits first_id (length ms) t (replicate n (false, t)) whole (omega arith)
                    (omega arith))
                ∙ loop_catches_up first_id n t is_log f (omega arith)
          ]

    -- The size of the batches that feedConsumer sends.
    abbrev sized_by : ℕ → ℕ
    sized_by batch_size = if batch_size == 0 then 2 ^ 64 - 1 else batch_size

    sized : (batch_size : ℕ) → 1 ≤ sized_by batch_size
    sized batch_size = ground arith

    -- Whatever a topic has in each round of one feedConsumer, and wherever the consumer is stopped, what
    -- the consumer receives is one stretch of the log from its position on: no event is left out,
    -- doubled or out of order, and each has the id of its place in the log. The log may grow from round
    -- to round, and the consumer is not ahead of it. The manager keeps to the interface, transfers
    -- within what is exposed succeed, the log has a descriptor for each event, and the number of events
    -- and the sizes of their metadata fit into 64 bits.
    pub receive_all-feed_consumer :
        (name address : String) (batch_size low : ℕ) (cursors : Cursors)
        (rounds : List (Bool × M.Topic))
        → IsRdma R
        → length ms ≡ length descs
        → All IsU64 (lengths ms)
        → IsU64 (length ms)
        → cursor_of name cursors ≤ low
        → low ≤ length ms
        → Prefixes R M IsLog keeps ms descs low rounds
        → let first_id = cursor_of name cursors in
          (n : ℕ) × (first_id + n ≤ length ms)
          × (receive_all R (M.feed_consumer name batch_size address cursors rounds)
              ≡ some (part ms descs first_id n))
    unfolding loop
    receive_all-feed_consumer name address batch_size low cursors rounds law e small few f l p =
        let (n, fits, received) =
          loop_received (sized_by batch_size) address law (sized batch_size) e small few
            (cursor_of name cursors) low rounds f l p in
        (
          n,
          fits,
          ap (receive_all R) (keeps.loops name batch_size address cursors rounds) ∙ received,
        )

    -- A consumer that is not stopped catches up: after as many rounds as there are events behind its
    -- position it has received all of these, whatever the size of its batches. The topic has the same log
    -- in each round, the manager keeps to the interface, transfers within what is exposed succeed, and
    -- the number of events and the sizes of their metadata fit into 64 bits.
    pub feed_consumer_catches_up :
        (name address : String) (batch_size n : ℕ) (cursors : Cursors) (t : M.Topic)
        → IsRdma R
        → All IsU64 (lengths ms)
        → IsU64 (length ms)
        → IsLog ms descs t
        → cursor_of name cursors ≤ length ms
        → length ms ≤ cursor_of name cursors + n
        → let first_id = cursor_of name cursors in
          receive_all R (M.feed_consumer name batch_size address cursors (replicate n (false, t)))
          ≡ some (numbered first_id (drop first_id ms) (drop first_id descs))
    unfolding loop
    feed_consumer_catches_up name address batch_size n cursors t law small few is_log f h =
        let first_id = cursor_of name cursors in
        let e = keeps.is_paired ms descs t is_log in
        let all_ms : take (length ms - first_id) (drop first_id ms) ≡ drop first_id ms =
          take_all (length ms - first_id) (drop first_id ms)
            (omega (arith, length-drop first_id ms)) in
        let all_descs : take (length ms - first_id) (drop first_id descs) ≡ drop first_id descs =
          take_all (length ms - first_id) (drop first_id descs)
            (omega (arith, length-drop first_id descs)) in
        ap (receive_all R) (keeps.loops name batch_size address cursors (replicate n (false, t)))
        ∙ loop_catches_up (sized_by batch_size) address law (sized batch_size) e small few first_id
            n t is_log f h
        ∙ ap₂ (λ x y. some (numbered first_id x y)) all_ms all_descs
