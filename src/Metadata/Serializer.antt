-- ===== src/Metadata/Serializer.antt =====
-- src/DefaultSerializer.hpp and src/DefaultValidator.hpp.
use mofka.Prelude.{
  Outcome, ◌>>=◌, length, if◌then◌else◌, Bytes, IsU64, encode_u64, returns, throws, ◌≡◌, [], ◌++◌,
  append_assoc, arith,
}
use mofka.Archive.{write, read, read_u64}
use mofka.Archive.Laws.{read-append, read_u64-encode}
use mofka.Metadata.{
  RapidJson, MetadataImpl, string_type, ensure_string, string_const, string_mut, is_valid_json,
}
use mofka.Metadata.Agreement.{IsType, is_valid_json_always}

module _ (J : RapidJson) where
  open J use {Document}

  -- DefaultSerializer::serialize, with the Metadata that it leaves.
  unfoldable pub serialize : Bytes → MetadataImpl Document → Bytes × MetadataImpl Document
  serialize archive m =
      let (str, m') = string_const J m in
      let archive' = write archive (encode_u64 (length str)) in (write archive' str, m')

  -- DefaultSerializer::deserialize.
  unfoldable pub deserialize :
      Bytes → MetadataImpl Document → Outcome (MetadataImpl Document × Bytes)
  deserialize archive m = do
    (size, archive') ← read_u64 archive
    (str, rest) ← read size archive'
    returns (record (string_mut J m) { string = str }, rest)

  -- DefaultValidator::validate, with the Metadata that it leaves.
  unfoldable pub validate : MetadataImpl Document → Outcome (MetadataImpl Document)
  validate m =
      if (is_valid_json J m).0
      then returns (is_valid_json J m).1
      else throws "Metadata object does not contain valid JSON metadata"

  -- A Metadata reads back the string that another one wrote, if its length fits into 64 bits,
  -- and counts its document as out of date; the rest of the archive is left.
  pub deserialize-serialize :
      (m m' : MetadataImpl Document) (rest : Bytes)
      → IsU64 (length (string_const J m).0)
      → deserialize ((serialize [] m).0 ++ rest) m'
        ≡ returns (record m' { string = (string_const J m).0; type = string_type }, rest)
  unfolding serialize deserialize string_mut ensure_string
  deserialize-serialize m m' rest h =
      let str = (string_const J m).0 in
      rw (append_assoc (encode_u64 (length str)) str rest)
        (rw (read_u64-encode (length str) (str ++ rest) h, read-append str rest) (ground arith))

  -- The validator refuses no Metadata with a type that the code reaches: not even one of
  -- unbalanced brackets.
  pub validate_always : (m : MetadataImpl Document) → IsType m.type → validate m ≡ returns m
  unfolding validate
  validate_always m h = rw (is_valid_json_always J m h)
