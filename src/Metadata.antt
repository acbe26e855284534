-- ===== src/Metadata.antt =====
-- src/MetadataImpl.hpp and src/Metadata.cpp: a string and a JSON document, either of which may be
-- out of date. An accessor returns its result with the object that it leaves. What RapidJSON does is
-- the parameter `RapidJson`.
pub mod Agreement
pub mod Serializer
pub mod Sent
pub mod Factory
pub mod Tests
use Prim.Native.Nat.{bit_and, bit_or}
use mofka.Prelude.{
  Outcome, ◌>>=◌, ◌==◌, if◌then◌else◌, Bytes, returns, throws, ℕ, String, Bool, true, false, not,
  ◌&&◌, Option, none, some, [],
}
use mofka.Json.{validate_is_json}

-- `parse` is Document::Parse, `parse_message` the text of the exception for a text that does not
-- parse, `write_document` what a Writer puts out.
pub record RapidJson : Type 1 where
  pub Document : Type 0
  pub null_document : Document
  pub parse : Bytes → Option Document
  pub parse_message : Bytes → String
  pub write_document : Document → Bytes

pub record MetadataImpl (D : Type 0) : Type 0 where
  pub string : Bytes
  pub json : D
  pub type : ℕ

-- MetadataImpl::Type.
abbrev pub string_type : ℕ
string_type = 1

abbrev pub valid_json_type : ℕ
valid_json_type = 3

abbrev pub actual_json_type : ℕ
actual_json_type = 6

-- `m_type & mask` as a condition.
abbrev pub has : ℕ → ℕ → Bool
has type mask = not (bit_and type mask == 0)

module _ (J : RapidJson) where
  open J use {Document, null_document, parse, parse_message, write_document}

  -- MetadataImpl(rapidjson::Document).
  unfoldable pub of_document : Document → MetadataImpl Document
  of_document doc = record { string = []; json = doc; type = actual_json_type }

  -- MetadataImpl(std::string, bool).
  unfoldable pub of_string : Bytes → Bool → Outcome (MetadataImpl Document)
  of_string str validate =
      if validate && not (validate_is_json str)
      then throws "String provided to Metadata constructor is not valid JSON"
      else returns (record {
        string = str;
        json = null_document;
        type = if validate then valid_json_type else string_type;
      })

  -- MetadataImpl::ensureString.
  unfoldable pub ensure_string : MetadataImpl Document → MetadataImpl Document
  ensure_string m =
      if has m.type string_type
      then m
      else record m { string = write_document m.json; type = bit_or m.type string_type }

  -- MetadataImpl::ensureJson.
  unfoldable pub ensure_json : MetadataImpl Document → Outcome (MetadataImpl Document)
  ensure_json m = if has m.type actual_json_type then returns m else elim (parse m.string) [
    | none ↦ throws (parse_message m.string)
    | some doc ↦ returns (record m { json = doc; type = bit_or m.type actual_json_type })
  ]

  -- MetadataImpl::validateJson.
  unfoldable pub validate_json : MetadataImpl Document → Bool × MetadataImpl Document
  validate_json m =
      if has m.type valid_json_type
      then (true, m)
      else if validate_is_json m.string
      then (true, record m { type = bit_or m.type valid_json_type })
      else (false, m)

  -- Metadata::string() const.
  unfoldable pub string_const : MetadataImpl Document → Bytes × MetadataImpl Document
  string_const m = ((ensure_string m).string, ensure_string m)

  -- Metadata::string(): the caller may then write to the string.
  unfoldable pub string_mut : MetadataImpl Document → MetadataImpl Document
  string_mut m = record (ensure_string m) { type = string_type }

  -- Metadata::json() const.
  unfoldable pub json_const : MetadataImpl Document → Outcome (Document × MetadataImpl Document)
  json_const m = do m' ← ensure_json m; returns (m'.json, m')

  -- Metadata::json(): the caller may then write to the document.
  unfoldable pub json_mut : MetadataImpl Document → Outcome (MetadataImpl Document)
  json_mut m = do m' ← ensure_json m; returns (record m' { type = actual_json_type })

  -- Metadata::isValidJson.
  unfoldable pub is_valid_json : MetadataImpl Document → Bool × MetadataImpl Document
  is_valid_json m = validate_json m

  -- `save` and `load` of a Metadata for an RPC: its string is what is sent, and what is written to the
  -- string of the other.
  unfoldable pub save : MetadataImpl Document → Bytes
  unfolding ensure_string
  save m = (ensure_string m).string

  unfoldable pub load : Bytes → MetadataImpl Document → MetadataImpl Document
  unfolding string_mut
  load str m = record (string_mut m) { string = str }
