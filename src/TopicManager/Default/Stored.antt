-- ===== src/TopicManager/Default/Stored.antt =====
-- The default topic with a data store in Warabi.
use mofka.Descriptor.Encoding.{length-save_from}
use mofka.TopicManager.{Cursors}
use mofka.Prelude.{
  length, length-append, All, concat, lengths, length-lengths, Bytes, IsU64, encode_u64,
  length-encode_u64, returns, ℕ, ◌+◌, ◌%◌, ◌^◌, ◌<◌, String, ◌≡◌, refl, sym, ap, ◌∙◌, some, List,
  [], ◌∷◌, ◌++◌, arith,
}
use mofka.Descriptor.{DataDescriptor}
use mofka.Rdma.{Rdma, IsRdma, BulkRef}
use mofka.TopicManager.Packed.{whole, packed}
use mofka.DataStore.{Warabi, store, warabi_descriptors}
use mofka.DataStore.Load.{length-warabi_descriptors, Stands, store-Stands}
use mofka.TopicManager.Default.{data_store, receive_batch}
use mofka.TopicManager.Default.Manager.{IsStore}
use mofka.DataStore.Contents.{stored, IsWarabi}
use mofka.TopicManager.Default.Log.{topic_with, images}
use mofka.TopicManager.Default.Receive.{receive_batch-append_stored}

module _ (R : Rdma) (W : Warabi R) where
  pub data_store_lem :
      (target : W.Target) (count : ℕ) (bulk : BulkRef R.Bulk) (ds : List DataDescriptor)
      → (store R W count bulk target).0 ≡ returns ds
      → data_store R W target count bulk ≡ returns (returns ds)
  unfolding data_store
  data_store_lem target count bulk ds e = rw e refl

  small_images :
      (region_id : W.Region) (offset : ℕ) (ss : List ℕ)
      → IsWarabi R W
      → W.region_size < 2 ^ 32
      → All IsU64 (lengths (images (warabi_descriptors R W region_id offset ss)))
  unfolding warabi_descriptors
  small_images region_id offset [] law small = tt
  small_images region_id offset (s ∷ ss) law small =
      let location = encode_u64 offset ++ W.image region_id in
      (
        omega (
          arith,
          length-save_from location 0,
          length-append (encode_u64 offset) (W.image region_id),
          length-encode_u64 offset,
          (law.0 region_id).0,
        ),
        small_images region_id ((offset + s) % 2 ^ 64) ss law small,
      )

  -- A data store in Warabi stores what is exposed, as the default topic expects it. Transfers within what
  -- is exposed succeed, Warabi keeps what is written into a region, and the id of a region is small.
  pub data_store-IsStore :
      (target : W.Target)
      → IsRdma R
      → IsWarabi R W
      → W.region_size < 2 ^ 32
      → IsStore R (data_store R W target)
  data_store-IsStore target rdma law small xs segments address e u =
      let (region_id, target', st, holds) = stored R W xs segments address target rdma law e u in
      let ds = warabi_descriptors R W region_id 0 (lengths xs) in
      (
        ds,
        data_store_lem target (length xs) (whole R segments address) ds (ap (λ a. a.0) st),
        length-warabi_descriptors R W region_id 0 (lengths xs) ∙ length-lengths xs,
        small_images region_id 0 (lengths xs) law small,
      )

  -- A batch of events is received into the log and its data into Warabi: the answer is the number of
  -- events before, the log is longer by the metadata and by the saved descriptors that the data store
  -- returned for it, one for each event, and in Warabi, as the store leaves it, the data of each event
  -- can be read at the region and the offset that the location of its descriptor tells. The log has a
  -- descriptor for each event before, transfers within what is exposed succeed, Warabi keeps what is
  -- written into a region, there is as much metadata as data, and sizes fit into 64 bits.
  pub receive_batch-Stands :
      (ms descs ns xs : List Bytes) (cursors : Cursors)
      (metadata_segments data_segments : List Bytes) (address : String) (target : W.Target)
      → IsRdma R
      → IsWarabi R W
      → concat metadata_segments ≡ packed ns
      → concat data_segments ≡ packed xs
      → length ns ≡ length xs
      → All IsU64 (lengths ns)
      → IsU64 (length (packed xs))
      → length ms ≡ length descs
      → (ds : List DataDescriptor) × (target' : W.Target) × (receive_batch R
            (data_store R W target)
            (length ns)
            (whole R metadata_segments address)
            (whole R data_segments address)
            (topic_with ms descs cursors)
          ≡ some
              (returns (returns (length ms)), topic_with (ms ++ ns) (descs ++ images ds) cursors))
        × ((store R W (length ns) (whole R data_segments address) target).1 ≡ target')
        × Stands R W target' ds xs
  receive_batch-Stands ms descs ns xs cursors metadata_segments data_segments address target rdma
        law em ex n um ux k =
      let (ds, target', st, count, stands) =
        store-Stands R W xs data_segments address target rdma law ex ux in
      let st' : store R W (length ns) (whole R data_segments address) target
          ≡ (returns ds, target') =
        rw n st in
      (
        ds,
        target',
        receive_batch-append_stored R (data_store R W target) ms descs ns ds cursors
            metadata_segments address (whole R data_segments address) rdma em um k (count ∙ sym n)
            (data_store_lem target (length ns) (whole R data_segments address) ds
              (ap (λ a. a.0) st')),
        ap (λ a. a.1) st',
        stands,
      )
