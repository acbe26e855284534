-- ===== src/DataStore/Load.antt =====
-- What is read of a batch that the data store keeps.
use mofka.Prelude.{
  length, take, drop, length-append, take-append, drop-append, take-append_eq, drop-append_eq,
  concat, lengths, length-lengths, ltb, Bytes, IsU64, word, encode_u64, length-encode_u64,
  decode_u64-encode_u64, encode_words, returns, ℕ, zero, suc, ◌+◌, ◌%◌, ◌^◌, String, ◌≡◌, refl, sym,
  ap, ◌∙◌, false, some, List, [], ◌∷◌, ◌++◌, append_assoc, arith,
}
use mofka.Descriptor.{DataDescriptor}
use mofka.Rdma.{Rdma, IsRdma, BulkRef}
use mofka.TopicManager.Packed.{whole, packed}
use mofka.DataStore.{
  Warabi, Loaded, store, load, load_from, warabi_descriptors, get_warabi_data_descriptor, add_read,
}
use mofka.DataStore.Contents.{stored, Holds, IsWarabi}

module _ (R : Rdma) (W : Warabi R) where
  -- Each entry can be read where the location of its descriptor says.
  abbrev pub Stands : W.Target → List DataDescriptor → List Bytes → Type 0
  Stands target [] [] = Unit {0}
  Stands target (d ∷ ds) (x ∷ xs) =
      ((region_id : W.Region) × (offset : ℕ) × (get_warabi_data_descriptor R W d
          ≡ some (offset, region_id))
        × (W.read target region_id offset (length x) ≡ returns x))
      × Stands target ds xs
  Stands target _ _ = ⊥

  located :
      (region_id : W.Region) (offset size : ℕ)
      → IsWarabi R W
      → IsU64 offset
      → get_warabi_data_descriptor R W
          (record { location = encode_u64 offset ++ W.image region_id; views = []; size = size })
        ≡ some (offset, region_id)
  unfolding get_warabi_data_descriptor
  located region_id offset size law u =
      let long_enough : ltb (length (encode_u64 offset ++ W.image region_id)) (word + W.region_size)
          ≡ false =
        ground (
          arith,
          length-append (encode_u64 offset) (W.image region_id),
          length-encode_u64 offset,
          (law.0 region_id).0,
        ) in
      rw
        (
          long_enough,
          take-append_eq word (encode_u64 offset) (W.image region_id)
              (sym (length-encode_u64 offset)),
          drop-append_eq word (encode_u64 offset) (W.image region_id)
              (sym (length-encode_u64 offset)),
          decode_u64-encode_u64 offset u,
          (law.0 region_id).1,
        )
        refl

  entry_lem :
      (content before x : Bytes) (xs : List Bytes)
      → content ≡ before ++ concat (x ∷ xs)
      → take (length x) (drop (length before) content) ≡ x
  entry_lem content before x xs e =
      rw (e, drop-append before (x ++ concat xs)) (take-append x (concat xs))

  warabi_descriptors-Stands :
      (target : W.Target) (region_id : W.Region) (content before : Bytes) (xs : List Bytes)
      → IsWarabi R W
      → Holds R W target region_id content
      → IsU64 (length content)
      → content ≡ before ++ concat xs
      → Stands target (warabi_descriptors R W region_id (length before) (lengths xs)) xs
  unfolding warabi_descriptors
  warabi_descriptors-Stands target region_id content before [] law holds u e = tt
  warabi_descriptors-Stands target region_id content before (x ∷ xs) law holds u e =
      let total = length-append before (x ++ concat xs) in
      let rest = length-append x (concat xs) in
      let size : length content ≡ length before + (length x + length (concat xs)) =
        omega (arith, ap length e, total, rest) in
      let next : (length before + length x) % 2 ^ 64 ≡ length (before ++ x) =
        omega (arith, size, length-append before x) in
      (
        (
          region_id,
          length before,
          located region_id (length before) 0 law (omega (arith, size)),
          holds (length before) (length x) (omega (arith, size))
              ∙ ap returns (entry_lem content before x xs e),
        ),
        rw next (
            warabi_descriptors-Stands target region_id content (before ++ x) xs law holds u
              (e ∙ sym (append_assoc before x (concat xs)))),
      )

  pub length-warabi_descriptors :
      (region_id : W.Region) (offset : ℕ) (ss : List ℕ)
      → length (warabi_descriptors R W region_id offset ss) ≡ length ss
  unfolding warabi_descriptors
  length-warabi_descriptors region_id offset [] = refl
  length-warabi_descriptors region_id offset (s ∷ ss) =
      ap suc (length-warabi_descriptors region_id ((offset + s) % 2 ^ 64) ss)

  -- What is stored of a batch stands where the descriptors that the store returns say, one for each
  -- entry. Transfers within what is exposed succeed, Warabi keeps what is written into a region, and the
  -- batch is smaller than 2 ^ 64 bytes.
  pub store-Stands :
      (xs segments : List Bytes) (address : String) (target : W.Target)
      → IsRdma R
      → IsWarabi R W
      → concat segments ≡ packed xs
      → IsU64 (length (packed xs))
      → (ds : List DataDescriptor) × (target' : W.Target) × (store R W
            (length xs)
            (whole R segments address)
            target
          ≡ (returns ds, target'))
        × (length ds ≡ length xs)
        × Stands target' ds xs
  store-Stands xs segments address target rdma law e u =
      let (region_id, target', st, holds) = stored R W xs segments address target rdma law e u in
      let small : IsU64 (length (concat xs)) =
        omega (arith, length-append (encode_words (lengths xs)) (concat xs)) in
      (
        warabi_descriptors R W region_id 0 (lengths xs),
        target',
        st,
        length-warabi_descriptors region_id 0 (lengths xs) ∙ length-lengths xs,
        warabi_descriptors-Stands target' region_id (concat xs) [] xs law holds small refl,
      )

  -- As many reads without an error that bring no bytes.
  abbrev pub nothing_loaded : ℕ → (position : ℕ) → List Loaded
  nothing_loaded zero position = []
  nothing_loaded (suc n) position =
      record { position = position; outcome = returns [] } ∷ nothing_loaded n position

  load_from-unsized :
      (target : W.Target) (region_id : W.Region) (content before : Bytes) (xs : List Bytes)
      (position : ℕ)
      → IsWarabi R W
      → Holds R W target region_id content
      → IsU64 (length content)
      → IsU64 position
      → content ≡ before ++ concat xs
      → load_from R W target position
          (warabi_descriptors R W region_id (length before) (lengths xs))
        ≡ some (nothing_loaded (length xs) position)
  unfolding load_from warabi_descriptors add_read
  load_from-unsized target region_id content before [] position law holds u v e = refl
  load_from-unsized target region_id content before (x ∷ xs) position law holds u v e =
      let total = length-append before (x ++ concat xs) in
      let rest = length-append x (concat xs) in
      let size : length content ≡ length before + (length x + length (concat xs)) =
        omega (arith, ap length e, total, rest) in
      let next : (length before + length x) % 2 ^ 64 ≡ length (before ++ x) =
        omega (arith, size, length-append before x) in
      let stays : (position + 0) % 2 ^ 64 ≡ position = omega arith in
      let read : W.read target region_id (length before) 0 ≡ returns [] =
        holds (length before) 0 (omega (arith, size)) in
      rw (located region_id (length before) 0 law (omega (arith, size)), next, stays)
        (rw
          (
            load_from-unsized target region_id content (before ++ x) xs position law holds u v
                (e ∙ sym (append_assoc before x (concat xs))),
            read,
          )
          refl)

  -- With the descriptors as the store returns them, whose size is 0, every read is of no bytes and
  -- succeeds: the data of a batch is not loaded. Transfers within what is exposed succeed, Warabi keeps
  -- what is written into a region, and the batch is smaller than 2 ^ 64 bytes, as is the offset of the
  -- reference.
  pub load-store_unsized :
      (xs segments : List Bytes) (address : String) (target : W.Target) (bulk : BulkRef R.Bulk)
      → IsRdma R
      → IsWarabi R W
      → concat segments ≡ packed xs
      → IsU64 (length (packed xs))
      → IsU64 bulk.offset
      → (ds : List DataDescriptor) × (target' : W.Target) × (store R W
            (length xs)
            (whole R segments address)
            target
          ≡ (returns ds, target'))
        × (load R W target' ds bulk ≡ some (nothing_loaded (length xs) bulk.offset))
  unfolding load
  load-store_unsized xs segments address target bulk rdma law e u v =
      let (region_id, target', st, holds) = stored R W xs segments address target rdma law e u in
      let small : IsU64 (length (concat xs)) =
        omega (arith, length-append (encode_words (lengths xs)) (concat xs)) in
      (
        warabi_descriptors R W region_id 0 (lengths xs),
        target',
        st,
        load_from-unsized target' region_id (concat xs) [] xs bulk.offset law holds small v refl,
      )
