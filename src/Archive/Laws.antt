-- ===== src/Archive/Laws.antt =====
-- What a read gives back of what was written.
use mofka.Prelude.{
  length, take, drop, length-append, take-append, drop-append, ltb, Bytes, IsU64, word, encode_u64,
  length-encode_u64, decode_u64-encode_u64, returns, ℕ, ◌≤◌, ◌≡◌, sym, false, ◌++◌, arith,
}
use mofka.Archive.{read, read_u64}

not_short : (n m : ℕ) → n ≤ m → ltb m n ≡ false
not_short n m h = ground arith

pub read-append : (bytes rest : Bytes) → read (length bytes) (bytes ++ rest) ≡ returns (bytes, rest)
unfolding read
read-append bytes rest = rw (
  not_short (length bytes) (length (bytes ++ rest)) (omega (arith, length-append bytes rest)),
  take-append bytes rest,
  drop-append bytes rest,
)

pub read-append_eq :
    (n : ℕ) (bytes rest : Bytes) → n ≡ length bytes → read n (bytes ++ rest) ≡ returns (bytes, rest)
read-append_eq n bytes rest e = rw e (read-append bytes rest)

pub read_u64-encode :
    (n : ℕ) (rest : Bytes) → IsU64 n → read_u64 (encode_u64 n ++ rest) ≡ returns (n, rest)
unfolding read_u64
read_u64-encode n rest h =
    rw (
      read-append_eq word (encode_u64 n) rest (sym (length-encode_u64 n)),
      decode_u64-encode_u64 n h,
    )

-- A read succeeds exactly on a buffer that is long enough, and splits it.
pub read-split :
    (n : ℕ) (buffer bytes rest : Bytes)
    → read n buffer ≡ returns (bytes, rest)
    → (n ≤ length buffer) × (bytes ≡ take n buffer) × (rest ≡ drop n buffer)
unfolding read
read-split n buffer bytes rest h = ground arith
