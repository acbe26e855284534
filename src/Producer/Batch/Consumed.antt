-- ===== src/Producer/Batch/Consumed.antt =====
-- The way of a sequence of batches from a producer through a provider, by any topic manager, to a
-- consumer.
use mofka.Result.{Result}
use mofka.Consumer.Receive.Delivery.{numbered}
use mofka.Producer.Batch.Answered.{received_batch}
use mofka.TopicManager.Packed.{packed}
use mofka.Consumer.Receive.Rounds.{receive_all}
use mofka.Producer.Batch.Sent.{batch_of, stored, metadata_reference, data_reference}
use mofka.TopicManager.{Cursors, cursor_of}
use mofka.Provider.{Topics, find_topic, success}
use mofka.TopicManager.Memory.Log.{metadatas, contents}
use mofka.TopicManager.Interface.{TopicManager, IsTopicManager}
use mofka.Producer.Batch.{Event, count}
use mofka.Rdma.{Rdma, IsRdma}
use mofka.Prelude.{
  Outcome, length, replicate, length-append, drop-append, drop-append_eq, All, All-append, lengths,
  lengths-append, Bytes, IsU64, returns, ℕ, ◌+◌, ◌≤◌, ◌<◌, String, ◌≡◌, refl, ◌∙◌, false, Option,
  none, some, List, [], ◌∷◌, ◌++◌, append-nil, append_assoc, arith, str_eq_iff,
}
use mofka.Provider.Handlers
use mofka.Consumer.Receive.Rounds.Whole.{feed_consumer_catches_up}

module _ {A P : Type 0} (serialize : A → Bytes → Bytes)
    (appends : (m : A) (buffer : Bytes) → serialize m buffer ≡ buffer ++ serialize m [])
    (memory : ℕ → ℕ) where
  module _ (R : Rdma) (M : TopicManager R) where
    -- The provider after it has handled the batches, one after the other.
    unfoldable pub send_all :
        (name address : String) → List (List (Event A P)) → Topics M.Topic → Option (Topics M.Topic)
    send_all name address [] topics = some topics
    send_all name address (es ∷ batches) topics =
        elim (Handlers.receive_batch R M name (count (batch_of serialize appends memory es))
          (metadata_reference serialize appends memory R es address)
          (data_reference serialize appends memory R es address) topics) [
            | none ↦ none
            | some (outcome, topics') ↦ send_all name address batches topics'
          ]

    send_all-cons :
        (name address : String) (es : List (Event A P)) (batches : List (List (Event A P)))
        (topics topics' : Topics M.Topic) (answers : Outcome (List (Result ℕ)))
        → Handlers.receive_batch R M name
            (count (batch_of serialize appends memory es))
            (metadata_reference serialize appends memory R es address)
            (data_reference serialize appends memory R es address)
            topics
          ≡ some (answers, topics')
        → send_all name address (es ∷ batches) topics ≡ send_all name address batches topics'
    unfolding send_all
    send_all-cons name address es batches topics topics' answers received =
        rw (received, send_all) refl

  -- The serialized metadata of the events of the batches, in their order.
  abbrev pub metadata_of : List (List (Event A P)) → List Bytes
  metadata_of [] = []
  metadata_of (es ∷ batches) = metadatas (stored serialize appends memory es) ++ metadata_of batches

  -- A batch with events, of sizes that fit into 64 bits.
  abbrev pub IsSized : List (Event A P) → Type 0
  IsSized es =
      (0 < length es)
      × All IsU64 (lengths (metadatas (stored serialize appends memory es)))
      × IsU64 (length (packed (contents (stored serialize appends memory es))))

  metadata_of-IsU64 :
      (batches : List (List (Event A P)))
      → All IsSized batches
      → All IsU64 (lengths (metadata_of batches))
  metadata_of-IsU64 [] h = tt
  metadata_of-IsU64 (es ∷ batches) ((some_there, um, ud), h) =
      let ms = metadatas (stored serialize appends memory es) in
      rw (lengths-append ms (metadata_of batches)) (
        All-append IsU64 (lengths ms) (lengths (metadata_of batches)) um
          (metadata_of-IsU64 batches h))

  module _ (R : Rdma) (M : TopicManager R) (IsLog : (ms descs : List Bytes) → M.Topic → Type 0)
      (keeps : IsTopicManager R M IsLog) where
    received_batches :
        (batches : List (List (Event A P))) (name address : String) (ms descs : List Bytes)
        (topics : Topics M.Topic) (t : M.Topic)
        → find_topic name topics ≡ some t
        → IsLog ms descs t
        → All IsSized batches
        → (ds : List Bytes) × (t' : M.Topic) × (topics' : Topics M.Topic) × (send_all R M name
              address batches topics
            ≡ some topics')
          × (find_topic name topics' ≡ some t')
          × IsLog (ms ++ metadata_of batches) (descs ++ ds) t'
    unfolding send_all
    received_batches [] name address ms descs topics t found is_log h =
        ([], t, topics, refl, found, rw (append-nil ms, append-nil descs) is_log)
    received_batches (es ∷ batches) name address ms descs topics t found is_log
          ((some_there, um, ud), h) =
        let log = metadatas (stored serialize appends memory es) in
        let (ds, t₁, topics₁, received, num, is_log₁, others) =
          received_batch serialize appends memory R M IsLog keeps es name address ms descs topics t
            found is_log some_there um ud in
        let here : find_topic name topics₁ ≡ some t₁ =
          rw (others name, (str_eq_iff name name).1 refl) refl in
        let (ds', t', topics', sent, there, is_log') =
          received_batches batches name address (ms ++ log) (descs ++ ds) topics₁ t₁ here is_log₁
            h in
        (
          ds ++ ds',
          t',
          topics',
          send_all-cons R M name address es batches topics topics₁
                (returns (success 0 (length ms) ∷ [])) received
              ∙ sent,
          there,
          rw (← append_assoc ms log (metadata_of batches), ← append_assoc descs ds ds') is_log',
        )

    -- What a producer sends in any number of batches is what a consumer receives: after the provider has
    -- handled batches of events for a topic, one after the other, a consumer that had received all events
    -- of the topic before, and is not stopped for as many rounds as there are new events, receives the
    -- serialized metadata of exactly the events of the batches, in the order of the pushes, under ids
    -- that go on from the number of events before, with a descriptor for each, whatever the size of its
    -- own batches. The batches have events, the serializer appends to its archive, the topic keeps to the
    -- interface and has the same log in each round, transfers within what is exposed succeed, and the
    -- number of events and the sizes fit into 64 bits.
    pub receive_all-send_all :
        (batches : List (List (Event A P))) (name address consumer self_addr : String)
        (batch_size n : ℕ) (ms descs : List Bytes) (cursors : Cursors) (topics : Topics M.Topic)
        (t : M.Topic)
        → IsRdma R
        → find_topic name topics ≡ some t
        → IsLog ms descs t
        → All IsSized batches
        → All IsU64 (lengths ms)
        → IsU64 (length ms + length (metadata_of batches))
        → cursor_of consumer cursors ≡ length ms
        → length (metadata_of batches) ≤ n
        → (ds : List Bytes) × (t' : M.Topic) × (topics' : Topics M.Topic) × (send_all R M name
              address batches topics
            ≡ some topics')
          × (find_topic name topics' ≡ some t')
          × (length ds ≡ length (metadata_of batches))
          × (receive_all R
                (M.feed_consumer consumer batch_size self_addr cursors (replicate n (false, t')))
              ≡ some (numbered (length ms) (metadata_of batches) ds))
    receive_all-send_all batches name address consumer self_addr batch_size n ms descs cursors
          topics t law found is_log h small few at_end rounds =
        let new = metadata_of batches in
        let (ds, t', topics', sent, there, is_log') =
          received_batches batches name address ms descs topics t found is_log h in
        let before = keeps.is_paired ms descs t is_log in
        let after = keeps.is_paired (ms ++ new) (descs ++ ds) t' is_log' in
        let total = length-append ms new in
        let all_small : All IsU64 (lengths (ms ++ new)) =
          rw (lengths-append ms new)
            (All-append IsU64 (lengths ms) (lengths new) small (metadata_of-IsU64 batches h)) in
        let fed =
          feed_consumer_catches_up R M IsLog keeps (ms ++ new) (descs ++ ds) consumer self_addr
            batch_size n cursors t' law all_small (omega arith) is_log' (omega arith)
            (omega arith) in
        (
          ds,
          t',
          topics',
          sent,
          there,
          omega (arith, length-append descs ds),
          rw (at_end, drop-append ms new, drop-append_eq (length ms) descs ds before) at fed,
        )
