-- ===== src/DataStore.antt =====
-- WarabiDataStore of src/WarabiDataStore.hpp. Warabi is the parameter `Warabi`: a target that holds
-- regions, `create_and_write` makes a region of what a remote reference holds, `read` gets a range of a
-- region, and the bytes of a RegionID, as they stand in a WarabiDataDescriptor, are its `image`. Reads
-- are issued in parallel; they do not change the target, so that their order does not show.
pub mod Contents
pub mod Load
pub mod Tests
use mofka.Prelude.{
  Outcome, length, take, drop, ltb, if◌then◌else◌, Bytes, sub64, word, encode_u64, decode_u64,
  decode_words, returns, throws, ℕ, ◌+◌, ◌*◌, ◌%◌, ◌^◌, String, Option, none, some, List, [], ◌∷◌,
  ◌++◌,
}
use mofka.Descriptor.{DataDescriptor, null}
use mofka.Rdma.{Rdma, BulkRef}

pub record Warabi (R : Rdma) : Type 1 where
  pub Target : Type 0
  pub Region : Type 0
  pub region_size : ℕ
  pub image : Region → Bytes
  pub region : Bytes → Region
  pub create_and_write :
      (handle : R.Bulk) (address : String) (offset size : ℕ) → Target → Outcome Region × Target
  pub read : Target → Region → (offset size : ℕ) → Outcome Bytes

-- One of the reads of `load`: where its bytes go in the remote memory, and what it came to.
pub record Loaded : Type 0 where
  pub position : ℕ
  pub outcome : Outcome Bytes

module _ (R : Rdma) (W : Warabi R) where
  -- The descriptors of data that lies one behind the other in a region; their size is left at 0.
  unfoldable pub warabi_descriptors : W.Region → (current_offset : ℕ) → List ℕ → List DataDescriptor
  warabi_descriptors region_id current_offset [] = []
  warabi_descriptors region_id current_offset (s ∷ ss) =
      record null { location = encode_u64 current_offset ++ W.image region_id }
      ∷ warabi_descriptors region_id ((current_offset + s) % 2 ^ 64) ss

  -- The result for the sizes that were transferred, and what the creation of a region came to.
  unfoldable pub stored_in :
      List ℕ → Outcome W.Region × W.Target → Outcome (List DataDescriptor) × W.Target
  stored_in sizes (throws what, target) = (throws what, target)
  stored_in sizes (returns region_id, target) =
      (returns (warabi_descriptors region_id 0 sizes), target)

  unfoldable pub store_sizes :
      (count : ℕ) (remote_bulk : BulkRef R.Bulk)
      → Outcome Bytes
      → W.Target
      → Outcome (List DataDescriptor) × W.Target
  store_sizes count remote_bulk (throws what) target = (throws what, target)
  store_sizes count remote_bulk (returns bytes) target =
      let data_offset = count * word in
      stored_in (decode_words count bytes) (
        W.create_and_write remote_bulk.handle remote_bulk.address
          ((remote_bulk.offset + data_offset) % 2 ^ 64) (sub64 remote_bulk.size data_offset) target)

  -- WarabiDataStore::store: an exception, or the descriptors, and the target that it leaves.
  unfoldable pub store :
      (count : ℕ) → BulkRef R.Bulk → W.Target → Outcome (List DataDescriptor) × W.Target
  store count remote_bulk target =
      store_sizes count remote_bulk
        (R.transfer remote_bulk.handle remote_bulk.offset (count * word)) target

  -- getWarabiDataDescriptor; `none` is a location shorter than what the code reads of it.
  pub get_warabi_data_descriptor : DataDescriptor → Option (ℕ × W.Region)
  get_warabi_data_descriptor d =
      if ltb (length d.location) (word + W.region_size)
      then none
      else some (decode_u64 (take word d.location), W.region (drop word d.location))

  pub add_read :
      W.Target
      → Option (ℕ × W.Region)
      → (size current_offset : ℕ) → Option (List Loaded)
      → Option (List Loaded)
  add_read target (some (offset_in_region, region_id)) size current_offset (some rest) = some (
      record { position = current_offset; outcome = W.read target region_id offset_in_region size }
      ∷ rest)
  add_read target _ size current_offset _ = none

  -- The loops of load: a read for each descriptor, of the size that it has.
  pub load_from : W.Target → (current_offset : ℕ) → List DataDescriptor → Option (List Loaded)
  load_from target current_offset [] = some []
  load_from target current_offset (d ∷ ds) =
      add_read target (get_warabi_data_descriptor d) d.size current_offset
        (load_from target ((current_offset + d.size) % 2 ^ 64) ds)

  -- WarabiDataStore::load.
  pub load : W.Target → List DataDescriptor → BulkRef R.Bulk → Option (List Loaded)
  load target descriptors remote_bulk = load_from target remote_bulk.offset descriptors
