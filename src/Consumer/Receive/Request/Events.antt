-- ===== src/Consumer/Receive/Request/Events.antt =====
-- What the promise of an event is set to.
use mofka.Prelude.{
  Outcome, ◌>>=◌, Bytes, returns, ℕ, ◌≡◌, sym, ap, ◌∙◌, Option, some, List, [], append-nil, arith,
}
use mofka.Consumer.Receive.Request.{event_ult, Answer, Data, request_data, finish_event}
use mofka.Descriptor.Encoding.{load-save, IsDescriptor}
use mofka.Descriptor.{DataDescriptor, load, save}

load-saved : (d : DataDescriptor) → IsDescriptor d → load (save [] d) ≡ returns (d, [])
load-saved d h = ap load (sym (append-nil (save [] d))) ∙ load-save d [] h

module _ {M : Type 0} (selector : Option (M → DataDescriptor → DataDescriptor))
    (broker : Option (M → DataDescriptor → List ℕ)) (request : DataDescriptor → ℕ → Answer)
    (deserialize : Bytes → Outcome M) where
  -- An event whose metadata is deserialized, and whose descriptor was saved with sizes, counts and
  -- offsets that fit into 64 bits, settles its promise as the request of its data ends: with its id,
  -- metadata and data, or with the exception of the request.
  pub event_ult-save :
      (id : ℕ) (text : Bytes) (metadata : M) (d : DataDescriptor) (outcome : Outcome Data)
      → IsDescriptor d
      → deserialize text ≡ returns metadata
      → request_data selector broker request deserialize metadata d ≡ some outcome
      → event_ult selector broker request deserialize
          (record { event_id = id; metadata = text; descriptor = save [] d })
        ≡ some (
            outcome >>= λ received.
            returns (record { id = id; metadata = metadata; event_data = received }))
  unfolding event_ult finish_event
  event_ult-save id text metadata d outcome h m r =
      let loaded = load-saved d h in ground (arith, loaded)
