-- ===== src/Producer/Batch/Answered.antt =====
-- The way of a batch from a producer through a provider into a topic, and of the answer back.
use mofka.Producer.Batch.Settled.{send_batch-ids}
use mofka.Producer.Batch.Contents.{push_all_lem}
use mofka.Provider.Handlers.Batches.{receive_batch-receives}
use mofka.TopicManager.Packed.{packed}
use mofka.Producer.Batch.Sent.{
  stored, batch_of, counted, metadata_packed, data_packed, length-stored, metadata_reference,
  data_reference, metadata_reference-whole, data_reference-whole,
}
use mofka.TopicManager.Interface.{TopicManager, IsTopicManager}
use mofka.Rdma.{Rdma}
use mofka.TopicManager.Memory.Log.{metadatas, contents, length-metadatas, length-contents}
use mofka.Provider.{success, Topics, find_topic}
use mofka.Producer.Batch.{Event, count, expose_metadata, expose_data, send_batch, empty_batch}
use mofka.Result.{Result}
use mofka.Prelude.{
  Outcome, length, get_elem?, All, lengths, if◌then◌else◌, Bytes, IsU64, returns, throws, ℕ, zero,
  suc, ◌+◌, ◌<◌, String, ◌≡◌, refl, sym, ap, ◌∙◌, some, List, [], ◌∷◌, ◌++◌, map, append-nil, arith,
  str_eq,
}
use mofka.Provider.Handlers

-- How the RPC ends for a producer: the first answer of the provider.
abbrev pub reply_of : List (Result ℕ) → Outcome (Outcome ℕ)
reply_of [] = throws "no answer"
reply_of (r ∷ answers) = returns (if r.success then returns r.value else throws r.error)

get_elem?-append_right :
    (xs ys : List Bytes) (i : ℕ) → get_elem? (xs ++ ys) (length xs + i) ≡ get_elem? ys i
get_elem?-append_right [] ys i = let z : 0 + i ≡ i = omega arith in rw z refl
get_elem?-append_right (x ∷ xs) ys i =
    let s : suc (length xs) + i ≡ suc (length xs + i) = omega arith in
    rw s (get_elem?-append_right xs ys i)

module _ {A P : Type 0} (serialize : A → Bytes → Bytes)
    (appends : (m : A) (buffer : Bytes) → serialize m buffer ≡ buffer ++ serialize m [])
    (memory : ℕ → ℕ) where
  get_elem?-stored :
      (es : List (Event A P)) (i : ℕ) (e : Event A P)
      → get_elem? es i ≡ some e
      → get_elem? (metadatas (stored serialize appends memory es)) i
        ≡ some (serialize e.metadata [])
  get_elem?-stored [] i e h = cc
  get_elem?-stored (x ∷ es) zero e h = cc
  get_elem?-stored (x ∷ es) (suc i) e h = get_elem?-stored es i e h

  get_elem?-length :
      (es : List (Event A P)) (i : ℕ) (e : Event A P) → get_elem? es i ≡ some e → 0 < length es
  get_elem?-length [] i e h = cc
  get_elem?-length (x ∷ es) i e h = omega arith

  get_elem?-promises :
      (es : List (Event A P)) (i : ℕ) (e : Event A P)
      → get_elem? es i ≡ some e
      → get_elem? (map (λ e. e.promise) es) i ≡ some e.promise
  get_elem?-promises [] i e h = cc
  get_elem?-promises (x ∷ es) zero e h = cc
  get_elem?-promises (x ∷ es) (suc i) e h = get_elem?-promises es i e h

  -- A batch of events for a topic of the provider is received into it.
  pub received_batch :
      (R : Rdma) (M : TopicManager R) (IsLog : (ms descs : List Bytes) → M.Topic → Type 0)
      (keeps : IsTopicManager R M IsLog) (es : List (Event A P)) (name address : String)
      (ms descs : List Bytes) (topics : Topics M.Topic) (t : M.Topic)
      → find_topic name topics ≡ some t
      → IsLog ms descs t
      → 0 < length es
      → All IsU64 (lengths (metadatas (stored serialize appends memory es)))
      → IsU64 (length (packed (contents (stored serialize appends memory es))))
      → (ds : List Bytes) × (t' : M.Topic) × (topics' : Topics M.Topic) × (Handlers.receive_batch R
            M name
            (count (batch_of serialize appends memory es))
            (metadata_reference serialize appends memory R es address)
            (data_reference serialize appends memory R es address)
            topics
          ≡ some (returns (success 0 (length ms) ∷ []), topics'))
        × (length ds ≡ length (metadatas (stored serialize appends memory es)))
        × IsLog (ms ++ metadatas (stored serialize appends memory es)) (descs ++ ds) t'
        × ((k : String)
            → find_topic k topics' ≡ (if str_eq name k then some t' else find_topic k topics))
  received_batch R M IsLog keeps es name address ms descs topics t found is_log h um ud =
      let log = stored serialize appends memory es in
      let m = expose_metadata (batch_of serialize appends memory es) in
      let d = expose_data memory (batch_of serialize appends memory es) in
      let num : length (metadatas log) ≡ length es =
        length-metadatas log ∙ length-stored serialize appends memory es in
      let same_count : length (metadatas log) ≡ length (contents log) =
        omega (arith, length-metadatas log, length-contents log) in
      rw
        (
          metadata_reference-whole serialize appends memory R es address h,
          data_reference-whole serialize appends memory R es address h,
          counted serialize appends memory es ∙ sym num,
        )
        (receive_batch-receives R M IsLog keeps name ms descs (metadatas log) (contents log)
          (m ∷ []) (d ∷ []) address topics t found is_log
          (append-nil m ∙ metadata_packed serialize appends memory es h)
          (append-nil d ∙ data_packed serialize appends memory es h) same_count um ud)

  -- A batch that a producer sends to a provider which has the topic is stored, and answered so that the
  -- promise of the event at index `i` is set to an id under which the serialized metadata of this event
  -- stands in the topic's log; what the log had stays, and so does every other topic. The serializer
  -- appends to its archive, the topic keeps to the interface, and sizes fit into 64 bits.
  pub send_batch-receive_batch :
      (R : Rdma) (M : TopicManager R) (IsLog : (ms descs : List Bytes) → M.Topic → Type 0)
      (keeps : IsTopicManager R M IsLog) (es : List (Event A P)) (moved : String → String)
      (name address k : String) (ms descs : List Bytes) (topics : Topics M.Topic) (t : M.Topic)
      (i : ℕ) (e : Event A P)
      → find_topic name topics ≡ some t
      → IsLog ms descs t
      → get_elem? es i ≡ some e
      → All IsU64 (lengths (metadatas (stored serialize appends memory es)))
      → IsU64 (length (packed (contents (stored serialize appends memory es))))
      → (answers : List (Result ℕ)) × (topics' : Topics M.Topic) × (t' : M.Topic) × (log : List
          Bytes)
        × (ds : List Bytes) × (Handlers.receive_batch R M name
              (count (batch_of serialize appends memory es))
              (metadata_reference serialize appends memory R es address)
              (data_reference serialize appends memory R es address)
              topics
            ≡ some (returns answers, topics'))
        × IsLog (ms ++ log) ds t'
        × (id : ℕ) × (get_elem?
              (send_batch moved
                (returns tt)
                (reply_of answers)
                (batch_of serialize appends memory es))
              i
            ≡ some (e.promise, returns id))
        × (get_elem? (ms ++ log) id ≡ some (serialize e.metadata []))
        × (find_topic k topics' ≡ (if str_eq name k then some t' else find_topic k topics))
  unfolding success empty_batch
  send_batch-receive_batch R M IsLog keeps es moved name address k ms descs topics t i e found
        is_log at um ud =
      let log = stored serialize appends memory es in
      let h : 0 < length es = get_elem?-length es i e at in
      let (ds, t', topics', received, num, is_log', others) =
        received_batch R M IsLog keeps es name address ms descs topics t found is_log h um ud in
      (
        success 0 (length ms) ∷ [],
        topics',
        t',
        metadatas log,
        descs ++ ds,
        received,
        is_log',
        length ms + i,
        send_batch-ids moved (length ms) (batch_of serialize appends memory es) i e.promise (
            ap (λ ps. get_elem? ps i) (push_all_lem serialize appends es empty_batch).4
            ∙ get_elem?-promises es i e at),
        get_elem?-append_right ms (metadatas log) i ∙ get_elem?-stored es i e at,
        others k,
      )
