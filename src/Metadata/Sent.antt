-- ===== src/Metadata/Sent.antt =====
-- Metadata that is sent by an RPC.
use mofka.Prelude.{Bytes, returns, ◌≡◌, refl, some}
use mofka.Metadata.{RapidJson, MetadataImpl, json_const, save, load, ensure_json}

module _ (J : RapidJson) where
  open J use {Document, null_document, parse, parse_message, write_document}

  -- A Metadata with a string, as it is after its document was parsed from it.
  abbrev parsed : Bytes → Document → MetadataImpl Document
  parsed str doc = record { string = str; json = doc; type = 7 }

  load_lem :
      (str : Bytes) (doc : Document) (m : MetadataImpl Document)
      → parse str ≡ some doc
      → json_const J (load J str m) ≡ returns (doc, parsed str doc)
  unfolding json_const load ensure_json
  load_lem str doc m h = rw h refl

  -- What is sent of a Metadata arrives: the JSON of the receiver's is what the string of the sender's is
  -- parsed to, whatever either was before, and sending it on sends the same string. The string of the
  -- sender's is parsed without an error.
  pub json_const-load :
      (sender receiver : MetadataImpl Document) (doc : Document)
      → parse (save J sender) ≡ some doc
      → (m : MetadataImpl Document) × (json_const J (load J (save J sender) receiver)
          ≡ returns (doc, m))
        × (save J m ≡ save J sender)
  unfolding save
  json_const-load sender receiver doc h =
      (parsed (save J sender) doc, load_lem (save J sender) doc receiver h, refl)
