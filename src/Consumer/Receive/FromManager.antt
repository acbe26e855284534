-- ===== src/Consumer/Receive/FromManager.antt =====
-- The way of a batch from a producer to a consumer, by any topic manager that keeps to the interface.
use mofka.Prelude.{
  length, take, drop, length-append, drop-append_eq, take_all, All, concat, lengths, Bytes, IsU64,
  returns, ℕ, ◌+◌, ◌-◌, ◌≤◌, ◌<◌, min, String, ◌≡◌, refl, sym, ap₂, ◌∙◌, some, List, [], ◌∷◌, ◌++◌,
  arith, str_eq_iff,
}
use mofka.Rdma.{Rdma, IsRdma}
use mofka.Consumer.Receive.{recv_batch}
use mofka.Consumer.Receive.Delivery.{numbered, recv_batch-fed_of}
use mofka.TopicManager.{Fed, fed_of, cursor_of}
use mofka.TopicManager.Packed.{packed, whole}
use mofka.TopicManager.Interface.{TopicManager, IsTopicManager}

All-append_right : (xs ys : List Bytes) → All IsU64 (lengths (xs ++ ys)) → All IsU64 (lengths ys)
All-append_right [] ys h = h
All-append_right (x ∷ xs) ys h = All-append_right xs ys h.1

new_entries :
    (num first_id : ℕ) (xs ys : List Bytes)
    → first_id ≡ length xs
    → num ≡ length ys
    → take num (drop first_id (xs ++ ys)) ≡ ys
new_entries num first_id xs ys e n =
    rw (drop-append_eq first_id xs ys e) (take_all num ys (omega arith))

module _ (R : Rdma) (M : TopicManager R) (IsLog : (ms descs : List Bytes) → M.Topic → Type 0)
    (keeps : IsTopicManager R M IsLog) where
  -- A batch that a topic manager receives arrives at a consumer that is at the end of its log: the
  -- manager answers with the number of events before, feeds the consumer from there, and the consumer
  -- receives exactly the metadata of the batch in its order, under ids from that number on, with a
  -- descriptor for each. The manager keeps to the interface, transfers within what is exposed succeed,
  -- the batch is not empty, has as much metadata as data and is not larger than that of the consumer,
  -- and the number of events and the sizes fit into 64 bits.
  pub recv_batch-receive_batch :
      (batch_size : ℕ) (ms descs ns xs metadata_segments data_segments : List Bytes)
      (address self_addr : String) (t : M.Topic)
      → IsRdma R
      → IsLog ms descs t
      → concat metadata_segments ≡ packed ns
      → concat data_segments ≡ packed xs
      → length ns ≡ length xs
      → 1 ≤ length ns
      → length ns ≤ batch_size
      → All IsU64 (lengths ns)
      → IsU64 (length (packed xs))
      → IsU64 (length (ms ++ ns))
      → (ds : List Bytes) × (t' : M.Topic) × (fed : Fed R.Bulk) × (M.receive_batch
            (length ns)
            (whole R metadata_segments address)
            (whole R data_segments address)
            t
          ≡ some (returns (returns (length ms)), t'))
        × (M.feed_once batch_size (length ms) self_addr t' ≡ some fed)
        × (recv_batch R fed ≡ returns (some (numbered (length ms) ns ds)))
  recv_batch-receive_batch batch_size ms descs ns xs msegs dsegs address self_addr t law is_log em
        ex e some_event fits un ux u =
      let (ds, t', received, count, is_log') =
        keeps.receives ms descs ns xs msegs dsegs address t is_log em ex e un ux in
      let total = length-append ms ns in
      let num : length ns ≡ min batch_size (length (ms ++ ns) - length ms) = omega (arith, total) in
      let small = All-append_right descs ds (keeps.is_small (ms ++ ns) (descs ++ ds) t' is_log') in
      (
        ds,
        t',
        fed_of R (length ms) ns ds self_addr,
        received,
        keeps.feeds batch_size (length ms) (length ns) self_addr (ms ++ ns) (descs ++ ds) t' is_log'
              (omega arith) (omega (arith, total)) u num
            ∙ ap₂ (λ n d. some (fed_of R (length ms) n d self_addr))
                (new_entries (length ns) (length ms) ms ns refl refl)
                (new_entries (length ns) (length ms) descs ds (keeps.is_paired ms descs t is_log)
                  (sym count)),
        recv_batch-fed_of R (length ms) ns ds self_addr law (sym count) un small,
      )

  -- A consumer that acknowledged an event is fed the events after that one, as many as there are up to
  -- the size of a batch, when it starts at the position that its topic manager has for it. The manager
  -- keeps to the interface, the size of a batch is not 0, there are events after the acknowledged one,
  -- and their number fits into 64 bits.
  pub feed_once-acknowledge :
      (name self_addr : String) (batch_size id num : ℕ) (ms descs : List Bytes) (t : M.Topic)
      → IsLog ms descs t
      → 1 ≤ batch_size
      → id + 1 < length ms
      → IsU64 (length ms)
      → num ≡ min batch_size (length ms - (id + 1))
      → M.feed_once batch_size
          (cursor_of name (M.consumer_cursor (M.acknowledge name id t)))
          self_addr
          (M.acknowledge name id t)
        ≡ some (
            fed_of R
              (id + 1)
              (take num (drop (id + 1) ms))
              (take num (drop (id + 1) descs))
              self_addr)
  feed_once-acknowledge name self_addr batch_size id num ms descs t is_log b f u n =
      let cursor : cursor_of name (M.consumer_cursor (M.acknowledge name id t)) ≡ id + 1 =
        ground (arith, keeps.moves name name id t, str_eq_iff name name) in
      rw cursor (
        keeps.feeds batch_size (id + 1) num self_addr ms descs (M.acknowledge name id t)
          (keeps.acknowledges name id ms descs t is_log) b f u n)
