-- ===== src/Consumer/Receive/Request/FromStore.antt =====
-- The data of an event of a default topic with a data store in Warabi, as a consumer asks for it.
use mofka.Consumer.Receive.Request.Events.{event_ult-save}
use mofka.TopicManager.Packed.{packed, whole}
use mofka.Descriptor.Encoding.{IsDescriptor}
use mofka.Consumer.Receive.Request.{request_data, Answer, no_data, event_ult}
use mofka.Descriptor.{DataDescriptor, from, save}
use mofka.Prelude.{
  Outcome, length, get_elem?, length-append, concat, lengths, length-lengths, Bytes, IsU64,
  encode_u64, length-encode_u64, returns, ℕ, zero, suc, ◌+◌, ◌%◌, ◌^◌, ◌<◌, String, ◌≡◌, refl, some,
  List, [], ◌∷◌, ◌++◌, arith,
}
use mofka.DataStore.{Warabi, warabi_descriptors, store}
use mofka.Rdma.{Rdma, IsRdma}
use mofka.DataStore.Contents.{stored, IsWarabi}

module _ (R : Rdma) (W : Warabi R) where
  location_of : (region_id : W.Region) (offset : ℕ) → DataDescriptor
  location_of region_id offset = from (encode_u64 offset ++ W.image region_id) 0

  nth_descriptor :
      (region_id : W.Region) (offset i : ℕ) (sizes : List ℕ)
      → i < length sizes
      → (o : ℕ) × (get_elem? (warabi_descriptors R W region_id offset sizes) i
          ≡ some (location_of region_id o))
  unfolding warabi_descriptors location_of
  nth_descriptor region_id offset i [] h = elim h [ ]
  nth_descriptor region_id offset zero (s ∷ ss) h = (offset, refl)
  nth_descriptor region_id offset (suc i) (s ∷ ss) h =
      nth_descriptor region_id ((offset + s) % 2 ^ 64) i ss (omega arith)

  location_of-IsDescriptor :
      (region_id : W.Region) (offset : ℕ)
      → IsWarabi R W
      → W.region_size < 2 ^ 32
      → IsDescriptor (location_of region_id offset)
  unfolding location_of
  location_of-IsDescriptor region_id offset law small = record {
    sized = omega arith;
    located = omega (
      arith,
      length-append (encode_u64 offset) (W.image region_id),
      length-encode_u64 offset,
      (law.0 region_id).0,
    );
    counted = omega arith;
    selections = tt;
  }

  -- A consumer gets no data of an event whose data went into Warabi, however much there was: for each
  -- entry of what a producer exposed, the data store answers with a descriptor of size 0, and the ULT of
  -- an event with this descriptor, when the data selector asks for all of it, ends without data, and
  -- without asking the provider. Transfers within what is exposed succeed, Warabi keeps what is written
  -- into a region, the metadata is deserialized, and the id of a region and the sizes are small.
  pub event_ult-store :
      {M : Type 0} (provide : M → DataDescriptor → List ℕ) (request : DataDescriptor → ℕ → Answer)
      (deserialize : Bytes → Outcome M) (xs segments : List Bytes) (address : String)
      (target : W.Target) (i id : ℕ) (text_of : Bytes) (metadata : M)
      → IsRdma R
      → IsWarabi R W
      → W.region_size < 2 ^ 32
      → concat segments ≡ packed xs
      → IsU64 (length (packed xs))
      → i < length xs
      → deserialize text_of ≡ returns metadata
      → (ds : List DataDescriptor) × (target' : W.Target) × (d : DataDescriptor) × (store R W
            (length xs)
            (whole R segments address)
            target
          ≡ (returns ds, target'))
        × (get_elem? ds i ≡ some d)
        × (event_ult
              (some (λ m asked. asked))
              (some provide)
              request
              deserialize
              (record { event_id = id; metadata = text_of; descriptor = save [] d })
            ≡ some (returns (record { id = id; metadata = metadata; event_data = no_data })))
  unfolding request_data location_of
  event_ult-store provide request deserialize xs segments address target i id text_of metadata rdma
        law small e u h read =
      let (region_id, target', st, holds) = stored R W xs segments address target rdma law e u in
      let (offset, nth) =
        nth_descriptor region_id 0 i (lengths xs) (omega (arith, length-lengths xs)) in
      (
        warabi_descriptors R W region_id 0 (lengths xs),
        target',
        location_of region_id offset,
        st,
        nth,
        event_ult-save (some (λ m asked. asked)) (some provide) request deserialize id text_of
            metadata (location_of region_id offset) (returns no_data)
            (location_of-IsDescriptor region_id offset law small) read refl,
      )
