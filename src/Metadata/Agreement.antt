-- ===== src/Metadata/Agreement.antt =====
-- When the string and the document of a Metadata agree, and where the type bits mislead.
use mofka.Prelude.{
  Bytes, returns, throws, ℕ, ◌≡◌, refl, sym, subst, ◌⊎◌, inl, inr, true, false, none, some, arith,
}
use mofka.Json.Balance.{Balanced, brackets_of, validate_is_json-Balanced}
use Prim.Native.Nat.{bit_or}
use mofka.Metadata.{
  RapidJson, MetadataImpl, valid_json_type, of_string, ensure_string, ensure_json, validate_json,
  json_const, is_valid_json, string_type, actual_json_type, has,
}

-- The values of `m_type` that the code reaches.
abbrev pub IsType : ℕ → Type 0
IsType t = (t ≡ 1) ⊎ ((t ≡ 3) ⊎ ((t ≡ 6) ⊎ (t ≡ 7)))

module _ (J : RapidJson) where
  open J use {Document, null_document, parse, parse_message, write_document}

  -- The type is one that the code reaches, and with both fields marked up to date, the document is what the string parses to.
  abbrev pub IsAgreed : MetadataImpl Document → Type 0
  IsAgreed m =
      (m.type ≡ 1)
      ⊎ ((m.type ≡ 3) ⊎ ((m.type ≡ 6) ⊎ ((m.type ≡ 7) × (parse m.string ≡ some m.json))))

  string_is_there :
      (m : MetadataImpl Document) → has m.type string_type ≡ true → ensure_string J m ≡ m
  unfolding ensure_string
  string_is_there m h = rw h

  json_is_there :
      (m : MetadataImpl Document) → has m.type actual_json_type ≡ true → ensure_json J m ≡ returns m
  unfolding ensure_json
  json_is_there m h = rw h

  json_is_parsed :
      (m : MetadataImpl Document)
      → m.type ≡ 1
      → ensure_json J m ≡ elim (parse m.string) [
        | none ↦ throws (parse_message m.string)
        | some doc ↦ returns (record m { json = doc; type = 7 })
      ]
  unfolding ensure_json
  json_is_parsed m e =
      let no : has m.type actual_json_type ≡ false = rw e in
      let both : bit_or m.type actual_json_type ≡ 7 = rw e in ground (arith, no, both)

  -- Bringing the document of an agreed Metadata up to date, when that does not throw, leaves it
  -- agreed.
  pub ensure_json-IsAgreed :
      (m m' : MetadataImpl Document) → IsAgreed m → ensure_json J m ≡ returns m' → IsAgreed m'
  ensure_json-IsAgreed m m' (inl e) r = ground (arith, json_is_parsed m e)
  ensure_json-IsAgreed m m' (inr (inl e)) r =
      let same : m ≡ m' = ground (arith, json_is_there m (rw e)) in
      subst IsAgreed same (inr (inl e))
  ensure_json-IsAgreed m m' (inr (inr (inl e))) r =
      let same : m ≡ m' = ground (arith, json_is_there m (rw e)) in
      subst IsAgreed same (inr (inr (inl e)))
  ensure_json-IsAgreed m m' (inr (inr (inr h))) r =
      let same : m ≡ m' = ground (arith, json_is_there m (rw h.0)) in
      subst IsAgreed same (inr (inr (inr h)))

  -- Bringing the string of an agreed Metadata up to date leaves it agreed, if what is written
  -- of a document parses to that document.
  pub ensure_string-IsAgreed :
      (m : MetadataImpl Document)
      → ((d : Document) → parse (write_document d) ≡ some d)
      → IsAgreed m
      → IsAgreed (ensure_string J m)
  unfolding ensure_string
  ensure_string-IsAgreed m law (inl e) = subst IsAgreed (sym (string_is_there m (rw e))) (inl e)
  ensure_string-IsAgreed m law (inr (inl e)) =
      subst IsAgreed (sym (string_is_there m (rw e))) (inr (inl e))
  ensure_string-IsAgreed m law (inr (inr (inl e))) = rw e (inr (inr (inr (refl, law m.json))))
  ensure_string-IsAgreed m law (inr (inr (inr h))) =
      subst IsAgreed (sym (string_is_there m (rw h.0))) (inr (inr (inr h)))

  -- `validateJson` finds a bit of its mask in every type, so it never looks at the string: every
  -- Metadata counts as valid JSON.
  pub is_valid_json_always :
      (m : MetadataImpl Document) → IsType m.type → is_valid_json J m ≡ (true, m)
  unfolding is_valid_json validate_json
  is_valid_json_always m (inl e) = rw e
  is_valid_json_always m (inr (inl e)) = rw e
  is_valid_json_always m (inr (inr (inl e))) = rw e
  is_valid_json_always m (inr (inr (inr e))) = rw e

  -- Of a text with balanced brackets that is validated when its Metadata is made, the document
  -- is the null document, whatever the text says, because `ensureJson` finds a bit of its mask
  -- in `ValidJson`.
  pub json-of_string_validated :
      (text : Bytes)
      → Balanced (brackets_of text)
      → (m : MetadataImpl Document) × (of_string J text true ≡ returns m)
        × (m.string ≡ text)
        × (json_const J m ≡ returns (null_document, m))
  unfolding of_string json_const ensure_json
  json-of_string_validated text b = (
    record { string = text; json = null_document; type = valid_json_type },
    rw ((validate_is_json-Balanced text).1 b),
    refl,
    refl,
  )
