-- ===== src/Consumer/Receive/Request.antt =====
-- The ULT of one event, and ConsumerImpl::requestData, of src/Consumer.cpp.
pub mod Events
pub mod FromTopic
pub mod FromStore
use mofka.Prelude.{
  Outcome, ◌>>=◌, sum, ◌==◌, if◌then◌else◌, Bytes, returns, throws, ℕ, not, Option, none, some,
  List, [], ◌∷◌,
}
use mofka.Result.{Result, BoolResult}
use mofka.Consumer.Receive.{Arrival}
use mofka.Descriptor.{DataDescriptor, load}

-- What the RPC mofka_consumer_request_data answers, and the bytes that were written for it.
pub record Answer : Type 0 where
  pub result : Result (List BoolResult)
  pub written : Bytes

-- Memory of a data broker, by the sizes of its segments, and its content.
pub record Data : Type 0 where
  pub segments : List ℕ
  pub content : Bytes

pub record Event (M : Type 0) : Type 0 where
  pub id : ℕ
  pub metadata : M
  pub event_data : Data

abbrev pub no_data : Data
no_data = record { segments = []; content = [] }

-- The end of requestData; `none` is an empty vector of results, whose first entry the code reads.
read_answer : List ℕ → Answer → Option (Outcome Data)
read_answer segments a =
    if not a.result.success then some (throws a.result.error) else elim a.result.value [
      | [] ↦ none
      | r ∷ rs ↦ some (
          if not r.success
          then throws r.error
          else returns (record { segments = segments; content = a.written }))
    ]

-- `selector` and `broker` are m_data_selector and m_data_broker, if they are set, `request` is the RPC
-- with the descriptor and the size of the memory, and `deserialize` that of the topic's serializer.
module _ {M : Type 0} (selector : Option (M → DataDescriptor → DataDescriptor))
    (broker : Option (M → DataDescriptor → List ℕ)) (request : DataDescriptor → ℕ → Answer)
    (deserialize : Bytes → Outcome M) where
  -- The memory that the broker gives for a descriptor.
  request_into :
      (DataDescriptor → List ℕ) → (requested descriptor : DataDescriptor) → Option (Outcome Data)
  unfolding read_answer
  request_into provide requested descriptor =
      let segments = provide requested in
      if requested.size == 0
      then some (returns no_data)
      else if not (sum segments == requested.size)
      then some (
          throws
            "DataBroker returned a Data object with a size different from the DataDescriptor size")
      else read_answer segments (request descriptor (sum segments))

  -- ConsumerImpl::requestData.
  unfoldable pub request_data : M → DataDescriptor → Option (Outcome Data)
  unfolding request_into
  request_data metadata descriptor = elim selector [
    | none ↦ some (returns no_data)
    | some select ↦ elim broker [
      | none ↦ some (returns no_data)
      | some provide ↦ request_into (provide metadata) (select metadata descriptor) descriptor
    ]
  ]

  unfoldable pub finish_event : ℕ → M → Outcome Data → Outcome (Event M)
  finish_event id metadata outcome = do
    received ← outcome
    returns (record { id = id; metadata = metadata; event_data = received })

  -- What the ULT sets its promise to.
  unfoldable pub event_ult : Arrival → Option (Outcome (Event M))
  event_ult a = elim (deserialize a.metadata) [
    | throws e ↦ some (throws e)
    | returns metadata ↦ elim (load a.descriptor) [
      | throws e ↦ some (throws e)
      | returns loaded ↦ elim (request_data metadata loaded.0) [
        | none ↦ none
        | some outcome ↦ some (finish_event a.event_id metadata outcome)
      ]
    ]
  ]
