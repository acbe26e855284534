-- ===== src/TopicManager/Default/Tests.antt =====
-- The properties of the default topic at concrete logs.
use mofka.TopicManager.Default.AsDefault.{memory_store, as_default, as_answers}
use mofka.Prelude.{
  take, drop, concat, leb, if◌then◌else◌, Bytes, returns, throws, ℕ, ◌≡◌, refl, some, List, [], ◌∷◌,
  ◌++◌, append-nil, arith, str_eq,
}
use mofka.Rdma.{local_rdma, local_rdma-IsRdma, BulkRef}
use mofka.Descriptor.{DataDescriptor}
use mofka.TopicManager.Packed.{whole, packed}
use mofka.TopicManager.Memory
use mofka.TopicManager.Default
use mofka.TopicManager.Memory.Log.{Stored, topic_of}
use mofka.TopicManager.Default.{receive_batch, data_store, initial}
use mofka.TopicManager.Default.Log.{topic_with, images}
use mofka.TopicManager.Default.InMemory.{receive_batch-as_default}
use mofka.TopicManager.Default.Creation.{JsonConfig, create}
use mofka.TopicManager.Default.Stored.{receive_batch-Stands}
use mofka.DataStore.{store, Warabi}
use mofka.DataStore.Load.{Stands}
use mofka.DataStore.Tests.{one_region, one_region-IsWarabi, entries}

abbrev metadatas : List Bytes
metadatas = (1 ∷ 2 ∷ []) ∷ (3 ∷ []) ∷ []

abbrev entries_one : List Bytes
entries_one = (5 ∷ []) ∷ []

abbrev descs : List Bytes
descs = (4 ∷ 5 ∷ []) ∷ (6 ∷ []) ∷ []

-- Warabi with room for two bytes in a region.
abbrev two_bytes : Warabi local_rdma
two_bytes = record one_region {
  create_and_write = λ handle address offset size target.
      if leb size 2
      then (returns tt, take size (drop offset (concat handle)))
      else (throws "no space", target);
}

abbrev one_bulk : BulkRef local_rdma.Bulk
one_bulk = whole local_rdma (packed entries_one ∷ []) "na"

abbrev two_bulk : BulkRef local_rdma.Bulk
two_bulk = whole local_rdma (packed entries ∷ []) "na"

-- The descriptor of the one entry.
abbrev descriptor : DataDescriptor
descriptor = record { location = 0 ∷ 0 ∷ 0 ∷ 0 ∷ 0 ∷ 0 ∷ 0 ∷ 0 ∷ []; views = []; size = 0 }

abbrev event : Stored
event = record { metadata = 1 ∷ 2 ∷ []; content = 9 ∷ [] }

receive_batch-as_default_example :
    Default.receive_batch local_rdma
      (memory_store local_rdma 1)
      2
      two_bulk
      two_bulk
      (as_default (topic_of (event ∷ []) []))
    ≡ as_answers (Memory.receive_batch local_rdma 2 two_bulk two_bulk (topic_of (event ∷ []) []))
unfolding mofka.Prelude.encode_words mofka.Prelude.encode_u64 topic_of
receive_batch-as_default_example =
    receive_batch-as_default local_rdma 2 two_bulk two_bulk (topic_of (event ∷ []) []) (omega arith)

receive_batch-Stands_example :
    (ds : List DataDescriptor) × (target' : Bytes) × (receive_batch local_rdma
        (data_store local_rdma one_region [])
        2
        two_bulk
        two_bulk
        (topic_with metadatas descs [])
      ≡ some (returns (returns 2), topic_with (metadatas ++ entries) (descs ++ images ds) []))
    × ((store local_rdma one_region 2 two_bulk []).1 ≡ target')
    × Stands local_rdma one_region target' ds entries
unfolding mofka.Prelude.encode_words mofka.Prelude.encode_u64
receive_batch-Stands_example =
    receive_batch-Stands local_rdma one_region metadatas descs entries entries []
      (packed entries ∷ []) (packed entries ∷ []) "na" [] local_rdma-IsRdma one_region-IsWarabi
      (append-nil (packed entries)) (append-nil (packed entries)) refl (omega arith) (omega arith)
      refl

-- Configurations as numbers: 0 has data at 1, which has an address at 2 and an id at 3.
abbrev numbered_config : JsonConfig ℕ
numbered_config = record {
  member = λ d key.
      if str_eq key "data" then some 1 else if str_eq key "__address__" then some 2 else some 3;
  string_value = λ d. some "na+sm://1";
  uint_value = λ d. some d;
}

created :
    create numbered_config (λ address id. returns id) (λ d. []) (λ d. []) 0
    ≡ some (returns (3, initial))
unfolding create
created = refl
