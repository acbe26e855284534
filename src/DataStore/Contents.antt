-- ===== src/DataStore/Contents.antt =====
-- What the data store keeps of a batch.
use mofka.TopicManager.Packed.{packed, whole, length-packed, sizes_fit}
use mofka.Prelude.{
  length, take, drop, length-append, take-append_eq, drop-append_eq, take_all, concat, lengths,
  length-lengths, Bytes, IsU64, sub64, word, encode_words, length-encode_words, decode_words,
  decode_words-encode_words, returns, ℕ, ◌+◌, ◌*◌, ◌%◌, ◌^◌, ◌≤◌, String, ◌≡◌, refl, ap, ◌∙◌, subst,
  List, [], append-nil, arith,
}
use mofka.Rdma.{Rdma, IsRdma}
use mofka.DataStore.{Warabi, warabi_descriptors, store, stored_in, store_sizes}

module _ (R : Rdma) (W : Warabi R) where
  -- A region of a target holds these bytes: every range within them can be read.
  abbrev pub Holds : W.Target → W.Region → Bytes → Type 0
  Holds target region_id content =
      (offset size : ℕ)
      → offset + size ≤ length content
      → W.read target region_id offset size ≡ returns (take size (drop offset content))

  -- What is assumed of Warabi: the image of a region's id has a fixed size and gives the id back, and a
  -- range within what was exposed can be written into a new region, which then holds it.
  abbrev pub IsWarabi : Type 0
  IsWarabi =
      ((region_id : W.Region)
        → (length (W.image region_id) ≡ W.region_size) × (W.region (W.image region_id) ≡ region_id))
      × ((segments : List Bytes) (address : String) (offset size : ℕ) (target : W.Target)
          → offset + size ≤ length (concat segments)
          → (region_id : W.Region) × (target' : W.Target) × (W.create_and_write (R.expose segments)
                address offset size target
              ≡ (returns region_id, target'))
            × Holds target' region_id (take size (drop offset (concat segments))))

  sizes_transferred :
      (xs segments : List Bytes)
      → IsRdma R
      → concat segments ≡ packed xs
      → R.transfer (R.expose segments) 0 (length xs * word) ≡ returns (encode_words (lengths xs))
  sizes_transferred xs segments rdma e =
      let sizes : length xs * word ≡ length (encode_words (lengths xs)) =
        omega (arith, length-encode_words (lengths xs), length-lengths xs) in
      let inside : 0 + length xs * word ≤ length (concat segments) =
        omega (arith, ap length e, length-packed xs) in
      rdma segments 0 (length xs * word) inside
      ∙ rw e (
          ap returns
            (take-append_eq (length xs * word) (encode_words (lengths xs)) (concat xs) sizes))

  region_content :
      (xs segments : List Bytes)
      → concat segments ≡ packed xs
      → take (length (concat xs)) (drop (length xs * word) (concat segments)) ≡ concat xs
  region_content xs segments e =
      let sizes : length xs * word ≡ length (encode_words (lengths xs)) =
        omega (arith, length-encode_words (lengths xs), length-lengths xs) in
      rw (e, drop-append_eq (length xs * word) (encode_words (lengths xs)) (concat xs) sizes)
        (take_all (length (concat xs)) (concat xs) (omega arith))

  decoded :
      (xs : List Bytes)
      → IsU64 (length (concat xs))
      → decode_words (length xs) (encode_words (lengths xs)) ≡ lengths xs
  decoded xs u =
      rw (← append-nil (encode_words (lengths xs)), ← length-lengths xs)
        (decode_words-encode_words (lengths xs) [] (sizes_fit xs u))

  -- The store, given what the creation of the region comes to.
  store_lem :
      (xs segments : List Bytes) (address : String) (target target' : W.Target)
      (region_id : W.Region)
      → IsRdma R
      → concat segments ≡ packed xs
      → length (concat segments) ≡ length xs * word + length (concat xs)
      → IsU64 (length (concat segments))
      → W.create_and_write
          (R.expose segments)
          address
          (length xs * word)
          (length (concat xs))
          target
        ≡ (returns region_id, target')
      → store R W (length xs) (whole R segments address) target
        ≡ (returns (warabi_descriptors R W region_id 0 (lengths xs)), target')
  unfolding store store_sizes stored_in
  store_lem xs segments address target target' region_id rdma e total u written =
      let offset : (0 + length xs * word) % 2 ^ 64 ≡ length xs * word = omega arith in
      let size : sub64 (length (concat segments)) (length xs * word) ≡ length (concat xs) =
        omega arith in
      rw (sizes_transferred xs segments rdma e, offset, size, decoded xs (omega arith), written)
        refl

  packed_size : (xs : List Bytes) → length (packed xs) ≡ length xs * word + length (concat xs)
  packed_size xs = omega (
    arith,
    length-append (encode_words (lengths xs)) (concat xs),
    length-encode_words (lengths xs),
    length-lengths xs,
  )

  -- A batch that was stored is held by the region that the descriptors are of.
  pub stored :
      (xs segments : List Bytes) (address : String) (target : W.Target)
      → IsRdma R
      → IsWarabi
      → concat segments ≡ packed xs
      → IsU64 (length (packed xs))
      → (region_id : W.Region) × (target' : W.Target) × (store R W
            (length xs)
            (whole R segments address)
            target
          ≡ (returns (warabi_descriptors R W region_id 0 (lengths xs)), target'))
        × Holds target' region_id (concat xs)
  stored xs segments address target rdma law e u =
      let total : length (concat segments) ≡ length xs * word + length (concat xs) =
        ap length e ∙ packed_size xs in
      let inside : length xs * word + length (concat xs) ≤ length (concat segments) = omega arith in
      let (region_id, target', written, holds) =
        law.1 segments address (length xs * word) (length (concat xs)) target inside in
      (
        region_id,
        target',
        store_lem xs segments address target target' region_id rdma e total
            (omega (arith, packed_size xs)) written,
        subst (Holds target' region_id) (region_content xs segments e) holds,
      )
