-- ===== src/Archive.antt =====
-- include/mofka/BufferWrapperArchive.hpp: archives over a byte buffer. The capacity that `write`
-- reserves does not show in the content of the vector and is left out.
pub mod Laws
use mofka.Prelude.{
  Outcome, ◌>>=◌, length, take, drop, ltb, if◌then◌else◌, Bytes, word, decode_u64, returns, throws,
  ℕ, ◌++◌,
}

-- BufferWrapperOutputArchive::write, as the buffer that it leaves.
abbrev pub write : Bytes → Bytes → Bytes
write buffer bytes = buffer ++ bytes

-- BufferWrapperInputArchive::read: the bytes copied out, and the rest of the view.
unfoldable pub read : ℕ → Bytes → Outcome (Bytes × Bytes)
read size buffer =
    if ltb (length buffer) size
    then throws "BufferWrapperInputArchive error: trying to read more than the buffer size"
    else returns (take size buffer, drop size buffer)

-- `ar.read(&n, sizeof(n))` into a `size_t`.
unfoldable pub read_u64 : Bytes → Outcome (ℕ × Bytes)
read_u64 buffer = do (bytes, rest) ← read word buffer; returns (decode_u64 bytes, rest)
