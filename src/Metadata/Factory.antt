-- ===== src/Metadata/Factory.antt =====
-- include/mofka/Factory.hpp, and FromMetadata of src/Validator.cpp, src/Serializer.cpp and
-- src/TargetSelector.cpp, which differ in the name of the interface only.
use mofka.Prelude.{
  Outcome, ◌>>=◌, if◌then◌else◌, Bytes, returns, throws, String, ◌≡◌, refl, Bool, true, false,
  Option, none, some, List, [], ◌∷◌, arith, str_append, str_eq, str_eq_iff,
}
use mofka.Json.Balance.{Balanced, brackets_of}
use mofka.Metadata.{RapidJson, MetadataImpl, of_string, json_const}
use mofka.Metadata.Agreement.{json-of_string_validated}

-- A creator function gives the object or throws; the table is `m_creator_fn`.
abbrev pub Creators : (A V : Type 0) → Type 0
Creators A V = List (String × (A → Outcome V))

module _ {A V : Type 0} where
  -- Factory::registerCreator: the last one under a key stands.
  unfoldable pub register_creator : String → (A → Outcome V) → Creators A V → Creators A V
  register_creator key creator [] = (key, creator) ∷ []
  register_creator key creator ((k, f) ∷ fs) =
      if str_eq k key then (key, creator) ∷ fs else (k, f) ∷ register_creator key creator fs

  find_creator : String → Creators A V → Option (A → Outcome V)
  find_creator key [] = none
  find_creator key ((k, f) ∷ fs) = if str_eq k key then some f else find_creator key fs

  -- Factory::create: `none` is the null pointer for a key that is not there.
  unfoldable pub create : String → Creators A V → A → Outcome (Option V)
  unfolding find_creator
  create key creators a = elim (find_creator key creators) [
    | none ↦ returns none
    | some f ↦ f a >>= λ v. returns (some v)
  ]

  find_creator-register :
      (key k : String) (f : A → Outcome V) (fs : Creators A V)
      → find_creator k (register_creator key f fs)
        ≡ (if str_eq key k then some f else find_creator k fs)
  unfolding find_creator register_creator
  find_creator-register key k f [] = refl
  find_creator-register key k f ((j, g) ∷ fs) =
      ground (
        arith,
        str_eq_iff key k,
        str_eq_iff j k,
        str_eq_iff j key,
        find_creator-register key k f fs,
      )

  -- After a registration, `create` runs the new creator under its key, and is unchanged under every
  -- other key.
  pub create-register_creator :
      (key k : String) (f : A → Outcome V) (fs : Creators A V) (a : A)
      → create k (register_creator key f fs) a
        ≡ (if str_eq key k then f a >>= (λ v. returns (some v)) else create k fs a)
  unfolding create
  create-register_creator key k f fs a = ground (arith, find_creator-register key k f fs)

-- IsObject, FindMember and GetString of a RapidJSON value.
pub record JsonAccess (D : Type 0) : Type 0 where
  pub is_object : D → Bool
  pub member : D → String → Option D
  pub string_value : D → Option String

module _ (J : RapidJson) (X : JsonAccess J.Document) where
  open J use {Document, null_document}
  open X use {is_object, member, string_value}

  -- FromMetadata, for the interface called `kind` with its default implementation.
  unfoldable pub from_metadata :
      {V : Type 0}
      → String
      → V
      → Creators (MetadataImpl Document) V
      → MetadataImpl Document
      → Outcome (Option V)
  from_metadata kind default creators m = do
    (json, m') ← json_const J m
    if is_object json
        then elim (member json "__type__") [
          | none ↦ returns (some default)
          | some type ↦ elim (string_value type) [
            | none ↦ throws (
                str_append (str_append "Cannor create " kind)
                  " from Metadata: invalid __type__ in Metadata (expected string)")
            | some name ↦ create name creators m'
          ]
        ]
        else throws (
            str_append (str_append "Cannor create " kind)
              " from Metadata: invalid Metadata (expected JSON object)")

  -- Validator::FromMetadata, TargetSelector::FromMetadata and Serializer::FromMetadata.
  unfoldable pub validator_from_metadata :
      {V : Type 0}
      → V
      → Creators (MetadataImpl Document) V
      → MetadataImpl Document
      → Outcome (Option V)
  unfolding from_metadata
  validator_from_metadata default creators m = from_metadata "Validator" default creators m

  unfoldable pub target_selector_from_metadata :
      {V : Type 0}
      → V
      → Creators (MetadataImpl Document) V
      → MetadataImpl Document
      → Outcome (Option V)
  unfolding from_metadata
  target_selector_from_metadata default creators m =
      from_metadata "TargetSelector" default creators m

  unfoldable pub serializer_from_metadata :
      {V : Type 0}
      → V
      → Creators (MetadataImpl Document) V
      → MetadataImpl Document
      → Outcome (Option V)
  unfolding from_metadata
  serializer_from_metadata default creators m = from_metadata "Serializer" default creators m

  -- From a string that was validated when its Metadata was made, no object is ever created: the
  -- document is still the null document, which is no object.
  pub from_metadata_validated :
      {V : Type 0} (kind : String) (default : V) (creators : Creators (MetadataImpl Document) V)
      (text : Bytes)
      → is_object null_document ≡ false
      → Balanced (brackets_of text)
      → (of_string J text true >>= from_metadata kind default creators)
        ≡ throws (
            str_append
              (str_append "Cannor create " kind)
              " from Metadata: invalid Metadata (expected JSON object)")
  unfolding from_metadata
  from_metadata_validated kind default creators text n b =
      let (m, made, same, null) = json-of_string_validated J text b in rw made (rw null (rw n))
