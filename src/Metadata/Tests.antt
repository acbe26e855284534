-- ===== src/Metadata/Tests.antt =====
-- The properties of Metadata at concrete objects.
use mofka.Prelude.{
  length, ◌==◌, Bytes, returns, ℕ, ◌≡◌, refl, sym, subst, ◌↔◌, inl, true, not, none, some, [], ◌∷◌,
  ◌++◌, arith,
}
use mofka.Metadata.{RapidJson, MetadataImpl, of_string, ensure_string, string_const, json_const}
use mofka.Metadata.Agreement.{json-of_string_validated}
use mofka.Metadata.Serializer.{serialize, deserialize, deserialize-serialize}
use mofka.Metadata.Factory.{JsonAccess, Creators}
use mofka.Json.{validate_is_json}
use mofka.Json.Balance.{Balanced, brackets_of, blank, validate_is_json-Balanced, group}

-- Documents as they are written, among which only the text `null` fails to be an object.
abbrev texts : RapidJson
texts = record {
  Document = Bytes;
  null_document = [];
  parse = λ text. some text;
  parse_message = λ text. "parse error";
  write_document = λ doc. doc;
}

abbrev objects : JsonAccess Bytes
objects = record {
  is_object = λ doc. not (length doc == 0);
  member = λ doc key. none;
  string_value = λ doc. none;
}

-- `{}` in bytes.
abbrev braces : Bytes
braces = b'{' ∷ b'}' ∷ []

braces-Balanced : Balanced braces
braces-Balanced = group (inl (refl, refl)) blank blank

braces_visible : brackets_of braces ≡ braces
unfolding brackets_of
braces_visible = refl

abbrev from_string : MetadataImpl Bytes
from_string = record { string = braces; json = []; type = 1 }

abbrev from_document : MetadataImpl Bytes
from_document = record { string = []; json = braces; type = 6 }

validate_is_json-Balanced_example : (validate_is_json braces ≡ true) ↔ Balanced (brackets_of braces)
validate_is_json-Balanced_example = validate_is_json-Balanced braces

json-of_string_validated_example :
    (m : MetadataImpl Bytes) × (of_string texts braces true ≡ returns m)
    × (m.string ≡ braces)
    × (json_const texts m ≡ returns ([], m))
json-of_string_validated_example =
    json-of_string_validated texts braces (subst Balanced (sym braces_visible) braces-Balanced)

deserialize-serialize_example :
    deserialize texts ((serialize texts [] from_document).0 ++ (7 ∷ [])) from_string
    ≡ returns
        (record from_string { string = (string_const texts from_document).0; type = 1 }, 7 ∷ [])
deserialize-serialize_example =
    deserialize-serialize texts from_document from_string (7 ∷ [])
      (unfold string_const ensure_string in omega arith)

abbrev creators : Creators ℕ ℕ
creators = ("default", λ n. returns n) ∷ []
