-- ===== src/DataStore/Tests.antt =====
-- The properties of the data store, with a target of one region.
use mofka.DataStore.Contents.{IsWarabi}
use mofka.Prelude.{take, drop, concat, Bytes, returns, refl, List, [], ◌∷◌}
use mofka.Rdma.{local_rdma}
use mofka.DataStore.{Warabi}

abbrev pub one_region : Warabi local_rdma
one_region = record {
  Target = Bytes;
  Region = Unit {0};
  region_size = 0;
  image = λ region_id. [];
  region = λ bytes. tt;
  create_and_write =
      λ handle address offset size target. (returns tt, take size (drop offset (concat handle)));
  read = λ target region_id offset size. returns (take size (drop offset target));
}

pub one_region-IsWarabi : IsWarabi local_rdma one_region
one_region-IsWarabi = (
  λ region_id. (refl, refl),
  λ segments address offset size target inside.
      (tt, take size (drop offset (concat segments)), refl, λ offset size inside. refl),
)

abbrev pub entries : List Bytes
entries = (9 ∷ []) ∷ (8 ∷ 7 ∷ []) ∷ []
