-- ===== src/Consumer/Tests.antt =====
-- The properties of the consumer at concrete runs.
use mofka.Consumer.Receive.Request.FromStore.{event_ult-store}
use mofka.TopicManager.Packed.{whole, packed}
use mofka.DataStore.Tests.{one_region, one_region-IsWarabi, entries}
use mofka.DataStore.{store}
use mofka.Consumer.Receive.Request.FromTopic.{data_rpc, event_ult-topic_of}
use mofka.TopicManager.Memory.Manager.{descs_of}
use mofka.Provider.{find_topic}
use mofka.Consumer.Receive.Request.{event_ult, Answer, no_data}
use mofka.Descriptor.{DataDescriptor, save}
use mofka.Prelude.{
  length, get_elem?, replicate, Bytes, returns, ℕ, ◌≡◌, refl, true, some, List, [], ◌∷◌, ◌++◌,
  append-nil, arith,
}
use mofka.Rdma.{local_rdma-IsRdma, local_rdma, BulkRef}
use mofka.Consumer.Futures.Matching.{run-interval, interval}
use mofka.Consumer.Receive.{Arrival}
use mofka.Consumer.Receive.Delivery.{numbered}
use mofka.TopicManager.Memory.Log.{Stored, topic_of, metadatas}
use mofka.Consumer.Futures.{Action, run, pulls, receives, initial}

abbrev pulls_and_events : List Action
pulls_and_events = pulls ∷ receives ∷ receives ∷ receives ∷ pulls ∷ []

run-interval_example :
    ((run pulls_and_events (initial true)).0
      ≡ interval 0 (length (run pulls_and_events (initial true)).0))
    × ((run pulls_and_events (initial true)).1
        ≡ interval 0 (length (run pulls_and_events (initial true)).1))
run-interval_example = run-interval true pulls_and_events

abbrev described_data : DataDescriptor
described_data = record { location = 4 ∷ 2 ∷ []; views = []; size = 3 }

-- A topic that writes as many zeros as there is room for.
abbrev zeros_for : DataDescriptor → ℕ → Answer
zeros_for d size = record {
  result = record {
    success = true;
    error = "";
    value = record { success = true; error = "" } ∷ [];
  };
  written = replicate size 0;
}

abbrev one_segment : Bytes → DataDescriptor → List ℕ
one_segment metadata d = d.size ∷ []

abbrev second : Stored
second = record { metadata = 3 ∷ []; content = 8 ∷ 7 ∷ [] }

abbrev first_events : List Stored
first_events = record { metadata = 1 ∷ 2 ∷ []; content = 9 ∷ [] } ∷ []

abbrev nowhere : ℕ → BulkRef (List Bytes)
nowhere size = record { handle = []; offset = 0; size = size; address = "na" }

event_ult-topic_of_example :
    (a : Arrival) × (get_elem?
        (numbered 0
          (metadatas (first_events ++ (second ∷ [])))
          (descs_of (first_events ++ (second ∷ []))))
        1
      ≡ some a)
    × (event_ult
          (some (λ m d. d))
          (some one_segment)
          (data_rpc nowhere
            (zeros_for described_data 0)
            "t"
            (("t", topic_of (first_events ++ (second ∷ [])) []) ∷ []))
          (λ text. returns text)
          a
        ≡ some (
            returns (record {
              id = 1;
              metadata = 3 ∷ [];
              event_data = record { segments = 2 ∷ []; content = 8 ∷ 7 ∷ [] };
            })))
unfolding find_topic
event_ult-topic_of_example =
    event_ult-topic_of nowhere (zeros_for described_data 0) "t"
      (("t", topic_of (first_events ++ (second ∷ [])) []) ∷ []) (λ m d. d) one_segment
      (λ text. returns text) first_events [] second [] (3 ∷ []) refl (omega arith) (omega arith)
      (omega arith) (omega arith) refl refl refl

event_ult-store_example :
    (ds : List DataDescriptor) × (target' : Bytes) × (d : DataDescriptor) × (store local_rdma
        one_region 2
        (whole local_rdma (packed entries ∷ []) "na")
        []
      ≡ (returns ds, target'))
    × (get_elem? ds 1 ≡ some d)
    × (event_ult
          (some (λ m asked. asked))
          (some one_segment)
          zeros_for
          (λ text. returns text)
          (record { event_id = 1; metadata = 6 ∷ []; descriptor = save [] d })
        ≡ some (returns (record { id = 1; metadata = 6 ∷ []; event_data = no_data })))
unfolding mofka.Prelude.encode_words mofka.Prelude.encode_u64
event_ult-store_example =
    event_ult-store local_rdma one_region one_segment zeros_for (λ text. returns text) entries
      (packed entries ∷ []) "na" [] 1 1 (6 ∷ []) (6 ∷ []) local_rdma-IsRdma one_region-IsWarabi
      (omega arith) (append-nil (packed entries)) (omega arith) (omega arith) refl
