-- ===== src/Consumer/Receive/Request/FromTopic.antt =====
-- The data of an event, from a topic in memory through its provider to the consumer.
use mofka.Consumer.Receive.Request.Events.{event_ult-save}
use mofka.TopicManager.Memory.Manager.{descs_of}
use mofka.Consumer.Receive.{Arrival}
use mofka.TopicManager.Memory.Data.{get_data-described, get_elem?-descriptors}
use mofka.Result.{of_bool}
use mofka.TopicManager.{Cursors}
use mofka.Provider.Handlers.{memory_get_data}
use mofka.Descriptor.{DataDescriptor, save}
use mofka.Provider.{Topics, find_topic, success}
use mofka.TopicManager.Memory.Log.{described, Stored, contents, topic_of, metadatas}
use mofka.Rdma.{BulkRef}
use mofka.Consumer.Receive.Delivery.{numbered}
use mofka.Descriptor.Encoding.{IsDescriptor}
use mofka.Prelude.{
  Outcome, length, get_elem?, length-append, sum, lengths, ◌==◌, Bytes, IsU64, encode_u64,
  length-encode_u64, returns, ℕ, zero, suc, ◌+◌, ◌%◌, ◌^◌, ◌≤◌, ◌<◌, String, ◌≡◌, refl, ap, ◌∙◌,
  true, false, Option, some, List, [], ◌∷◌, ◌++◌, arith,
}
use mofka.Consumer.Receive.Request.{Answer, request_data, event_ult, read_answer}
use mofka.TopicManager.Memory.{offset_size_string, MemoryTopic}
use mofka.Provider.Handlers

described-IsDescriptor : (offset size : ℕ) → IsU64 size → IsDescriptor (described offset size)
unfolding offset_size_string
described-IsDescriptor offset size h = record {
  sized = h;
  located = omega (
    arith,
    length-append (encode_u64 offset) (encode_u64 size),
    length-encode_u64 offset,
    length-encode_u64 size,
  );
  counted = omega arith;
  selections = tt;
}

-- What the RPC gives a consumer: the first answer of the provider. `undefined` stands for what it gives
-- where the behaviour of the provider is undefined.
abbrev pub first_answer : (undefined : Answer) → Option (List Answer) → Answer
first_answer undefined (some (a ∷ answers)) = a
first_answer undefined _ = undefined

get_elem?-numbered :
    (first_id id : ℕ) (m d : Bytes) (ms descs : List Bytes)
    → get_elem? ms id ≡ some m
    → get_elem? descs id ≡ some d
    → first_id + id < 2 ^ 64
    → get_elem? (numbered first_id ms descs) id
      ≡ some (record { event_id = first_id + id; metadata = m; descriptor = d })
get_elem?-numbered first_id id m d [] descs em ed h = cc
get_elem?-numbered first_id id m d (n ∷ ms) [] em ed h = cc
get_elem?-numbered first_id zero m d (n ∷ ms) (x ∷ descs) em ed h =
    let z : first_id + 0 ≡ first_id = omega arith in cc
get_elem?-numbered first_id (suc id) m d (n ∷ ms) (x ∷ descs) em ed h =
    let next : (first_id + 1) % 2 ^ 64 ≡ first_id + 1 = omega arith in
    let sum_eq : first_id + suc id ≡ first_id + 1 + id = omega arith in
    rw (next, sum_eq) (get_elem?-numbered (first_id + 1) id m d ms descs em ed (omega arith))

get_elem?-metadatas :
    (es fs : List Stored) (e : Stored)
    → get_elem? (metadatas (es ++ (e ∷ fs))) (length es) ≡ some e.metadata
get_elem?-metadatas [] fs e = refl
get_elem?-metadatas (x ∷ es) fs e = get_elem?-metadatas es fs e

-- `expose` is the reference to memory of a size that the consumer sends along.
module _ {B : Type 0} (expose : ℕ → BulkRef B) (undefined : Answer) (topic_name : String)
    (topics : Topics MemoryTopic) where
  -- The RPC of requestData to a provider with topics in memory.
  abbrev pub data_rpc : DataDescriptor → ℕ → Answer
  data_rpc descriptor size =
      first_answer undefined
        (Handlers.request_data memory_get_data topic_name descriptor (expose size) topics)

  data_rpc_lem :
      (es fs : List Stored) (e : Stored) (cursors : Cursors) (size : ℕ)
      → find_topic topic_name topics ≡ some (topic_of (es ++ (e ∷ fs)) cursors)
      → IsU64 (sum (lengths (contents es)))
      → IsU64 (length e.content)
      → data_rpc (described (sum (lengths (contents es))) (length e.content)) size
        ≡ record { result = success [] (of_bool true ∷ []); written = e.content }
  unfolding Handlers.request_data memory_get_data
  data_rpc_lem es fs e cursors size found ho hs =
      rw (found, get_data-described es fs e cursors ho hs, Handlers.request_data) refl

  module _ {M : Type 0} (select : M → DataDescriptor → DataDescriptor)
      (provide : M → DataDescriptor → List ℕ) (deserialize : Bytes → Outcome M) where
    request_data-described :
        (es fs : List Stored) (e : Stored) (cursors : Cursors) (metadata : M)
        → find_topic topic_name topics ≡ some (topic_of (es ++ (e ∷ fs)) cursors)
        → IsU64 (sum (lengths (contents es)))
        → IsU64 (length e.content)
        → 1 ≤ length e.content
        → let d = described (sum (lengths (contents es))) (length e.content) in
          (select metadata d).size ≡ length e.content
          → sum (provide metadata (select metadata d)) ≡ length e.content
          → request_data (some select) (some provide) data_rpc deserialize metadata d
            ≡ some (
                returns
                  (record { segments = provide metadata (select metadata d); content = e.content }))
    unfolding request_data success of_bool
    request_data-described es fs e cursors metadata found ho hs h selected provided =
        let requested =
          select metadata (described (sum (lengths (contents es))) (length e.content)) in
        let given = sum (provide metadata requested) in
        let nonzero : (requested.size == 0) ≡ false = ground arith in
        let same : (given == requested.size) ≡ true = ground arith in
        rw (nonzero, same)
          (ap (λ a. read_answer (provide metadata requested) a)
            (data_rpc_lem es fs e cursors given found ho hs))

    -- An event of a topic in memory that a consumer has received settles its promise with its own
    -- data: the event after the events `es` of the log arrives as entry `length es` of what is received
    -- of the whole log, under that id, and its ULT ends with this id, its deserialized metadata and the
    -- bytes that were pushed for it, in the segments that the data broker gave. The provider has the
    -- topic under its name, the data selector keeps the size, the data broker gives memory of that
    -- size, there is some data, its metadata is deserialized, and the sizes of the data fit into 64 bits.
    pub event_ult-topic_of :
        (es fs : List Stored) (e : Stored) (cursors : Cursors) (metadata : M)
        → find_topic topic_name topics ≡ some (topic_of (es ++ (e ∷ fs)) cursors)
        → IsU64 (sum (lengths (contents es)))
        → IsU64 (length e.content)
        → IsU64 (length es)
        → 1 ≤ length e.content
        → deserialize e.metadata ≡ returns metadata
        → let d = described (sum (lengths (contents es))) (length e.content) in
          (select metadata d).size ≡ length e.content
          → sum (provide metadata (select metadata d)) ≡ length e.content
          → (a : Arrival) × (get_elem?
                (numbered 0 (metadatas (es ++ (e ∷ fs))) (descs_of (es ++ (e ∷ fs))))
                (length es)
              ≡ some a)
            × (event_ult (some select) (some provide) data_rpc deserialize a
                ≡ some (
                    returns (record {
                      id = length es;
                      metadata = metadata;
                      event_data = record {
                        segments = provide metadata (select metadata d);
                        content = e.content;
                      };
                    })))
    event_ult-topic_of es fs e cursors metadata found ho hs hl h read selected provided =
        let log = es ++ (e ∷ fs) in
        let d = described (sum (lengths (contents es))) (length e.content) in
        let zero_first : 0 + sum (lengths (contents es)) ≡ sum (lengths (contents es)) =
          omega arith in
        let zero_id : 0 + length es ≡ length es = omega arith in
        let in_descs =
          get_elem?-descriptors 0 es fs e
          ∙ ap (λ o. some (save [] (described o (length e.content)))) zero_first in
        (
          record { event_id = length es; metadata = e.metadata; descriptor = save [] d },
          get_elem?-numbered 0 (length es) e.metadata (save [] d) (metadatas log) (descs_of log)
                (get_elem?-metadatas es fs e) in_descs (omega arith)
              ∙ ap
                  (λ id.
                    some (record { event_id = id; metadata = e.metadata; descriptor = save [] d }))
                  zero_id,
          event_ult-save (some select) (some provide) data_rpc deserialize (length es) e.metadata
              metadata d
              (returns
                (record { segments = provide metadata (select metadata d); content = e.content }))
              (described-IsDescriptor (sum (lengths (contents es))) (length e.content) hs) read
              (request_data-described es fs e cursors metadata found ho hs h selected provided),
        )
