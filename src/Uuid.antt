-- ===== src/Uuid.antt =====
-- include/mofka/UUID.hpp. libuuid, which makes, parses and prints the 16 bytes of a uuid_t, is the
-- parameters of the functions that call it.
pub mod Tests
use mofka.Archive.Laws.{read-append_eq}
use mofka.Prelude.{
  Outcome, ◌>>=◌, length, take, drop, replicate, ◌==◌, if◌then◌else◌, Bytes, decode_u64, returns,
  throws, ℕ, String, ◌≡◌, refl, sym, ap, ap₂, ◌∙◌, ◌↔◌, Bool, true, false, ◌&&◌, [], ◌∷◌, ◌++◌,
  arith,
}
use mofka.Archive.{write, read}
use Prim.Native.Nat.{bit_xor}

-- uuid_t is an array of 16 bytes.
pub record Uuid : Type 0 where
  pub m_data : Bytes

abbrev pub uuid_size : ℕ
uuid_size = 16

-- UUID::UUID.
abbrev pub cleared : Uuid
cleared = record { m_data = replicate uuid_size 0 }

-- What memcmp of the arrays tests.
same_bytes : Bytes → Bytes → Bool
same_bytes [] [] = true
same_bytes (x ∷ xs) (y ∷ ys) = (x == y) && same_bytes xs ys
same_bytes _ _ = false

-- UUID::operator==.
unfoldable pub same : Uuid → Uuid → Bool
unfolding same_bytes
same u v = same_bytes u.m_data v.m_data

-- UUID::hash.
unfoldable pub hash : Uuid → ℕ
hash u = bit_xor (decode_u64 (take 8 u.m_data)) (decode_u64 (take 8 (drop 8 u.m_data)))

-- UUID::save and UUID::load.
unfoldable pub save : Bytes → Uuid → Bytes
save a u = write a u.m_data

unfoldable pub load : Bytes → Outcome (Uuid × Bytes)
load a = do (m_data, rest) ← read uuid_size a; returns (record { m_data = m_data }, rest)

-- UUID::from_string, for what uuid_parse gives: whether it returned -1, and the bytes that it left.
unfoldable pub from_string : (uuid_parse : String → Bool × Bytes) → String → Outcome Uuid
from_string uuid_parse str =
    let (failed, m_data) = uuid_parse str in
    if failed
    then throws "String argument does not represent a valid UUID"
    else returns (record { m_data = m_data })

-- UUID::to_string.
unfoldable pub to_string : (uuid_unparse : Bytes → String) → Uuid → String
to_string uuid_unparse u = uuid_unparse u.m_data

same_bytes-eq : (xs ys : Bytes) → same_bytes xs ys ≡ true → xs ≡ ys
unfolding same_bytes
same_bytes-eq [] [] h = refl
same_bytes-eq [] (y ∷ ys) h = cc
same_bytes-eq (x ∷ xs) [] h = cc
same_bytes-eq (x ∷ xs) (y ∷ ys) h =
    let first : x ≡ y = ground arith in
    let rest : same_bytes xs ys ≡ true = ground arith in
    ap₂ (λ z zs. z ∷ zs) first (same_bytes-eq xs ys rest)

same_bytes_refl : (xs : Bytes) → same_bytes xs xs ≡ true
unfolding same_bytes
same_bytes_refl [] = refl
same_bytes_refl (x ∷ xs) = ground (arith, same_bytes_refl xs)

pub same-eq : (u v : Uuid) → same u v ≡ true → u ≡ v
unfolding same
same-eq u v h = ap (λ m. record { m_data = m }) (same_bytes-eq u.m_data v.m_data h)

pub same_refl : (u : Uuid) → same u u ≡ true
unfolding same
same_refl u = same_bytes_refl u.m_data

pub same_iff : (u v : Uuid) → (same u v ≡ true) ↔ (u ≡ v)
same_iff u v = (same-eq u v, λ e. ap (λ w. same u w) (sym e) ∙ same_refl u)

-- A UUID of 16 bytes that is saved in front of anything is loaded as one that is equal to it by the
-- class's own test and has the same hash, and what stood behind it is left.
pub load-save_uuid :
    (u : Uuid) (rest : Bytes)
    → length u.m_data ≡ uuid_size
    → (v : Uuid) × (load (save [] u ++ rest) ≡ returns (v, rest))
      × (same u v ≡ true)
      × (hash u ≡ hash v)
unfolding load save
load-save_uuid u rest h =
    (u, rw (read-append_eq uuid_size u.m_data rest (sym h)) refl, same_refl u, refl)
