-- ===== src/TopicManager/Memory/Resume.antt =====
-- Where a consumer goes on after it acknowledged an event.
use mofka.Prelude.{
  length, take, drop, lengths, ◌==◌, IsU64, ℕ, ◌+◌, ◌-◌, ◌%◌, ◌^◌, ◌≤◌, ◌<◌, min, String, ◌≡◌, true,
  false, some, List, [], ◌∷◌, arith, str_eq_iff,
}
use mofka.Rdma.{Rdma}
use mofka.TopicManager.{Cursors, cursor_of-set_cursor, cursor_of, Fed, fed_of}
use mofka.TopicManager.Memory.{MemoryTopic, feed_consumer, feed_once, feed_rounds, acknowledge}
use mofka.TopicManager.Memory.Log.{Stored, topic_of, metadatas, contents, descriptors}
use mofka.TopicManager.Memory.Feed.{feed_once-topic_of}

cursor_of-acknowledge :
    (name : String) (id : ℕ) (t : MemoryTopic)
    → id + 1 < 2 ^ 64
    → cursor_of name (acknowledge name id t).consumer_cursor ≡ id + 1
unfolding acknowledge
cursor_of-acknowledge name id t h = ground (
  arith,
  str_eq_iff name name,
  cursor_of-set_cursor name name ((id + 1) % 2 ^ 64) t.consumer_cursor,
)

module _ (R : Rdma) where
  feed_rounds_one :
      (batch_size first_id : ℕ) (address : String) (t u : MemoryTopic) (fed : Fed R.Bulk)
      → feed_once R batch_size first_id address t ≡ some fed
      → feed_rounds R batch_size first_id address ((false, t) ∷ (true, u) ∷ []) ≡ fed ∷ []
  unfolding feed_rounds
  feed_rounds_one batch_size first_id address t u fed h = ground arith

  -- A consumer that acknowledged an event, of whatever state of the topic, and asks for events again
  -- is fed first those after that event, as many as there are up to the size of a batch, in handles
  -- with exactly their metadata and the saved descriptors of their data. The size of a batch is not 0,
  -- there are events after that one, and their number fits into 64 bits.
  pub feed_consumer-acknowledge :
      (name address : String) (batch_size id num : ℕ) (t : MemoryTopic) (es : List Stored)
      (cursors : Cursors)
      → 1 ≤ batch_size
      → id + 1 < length es
      → IsU64 (length es)
      → num ≡ min batch_size (length es - (id + 1))
      → feed_consumer R name batch_size address
          (acknowledge name id t).consumer_cursor
          ((false, topic_of es cursors) ∷ (true, topic_of es cursors) ∷ [])
        ≡ fed_of R
            (id + 1)
            (metadatas (take num (drop (id + 1) es)))
            (take num (drop (id + 1) (descriptors 0 (lengths (contents es)))))
            address
          ∷ []
  unfolding feed_consumer
  feed_consumer-acknowledge name address batch_size id num t es cursors b f u n =
      let cursor = cursor_of-acknowledge name id t (omega arith) in
      let sized : (batch_size == 0) ≡ false = ground arith in
      rw (cursor, sized)
        (feed_rounds_one batch_size (id + 1) address (topic_of es cursors) (topic_of es cursors) _
          (rw n (feed_once-topic_of R batch_size (id + 1) address es cursors b f u)))
