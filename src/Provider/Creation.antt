-- ===== src/Provider/Creation.antt =====
-- The constructor of src/ProviderImpl.hpp, but for the definition of the RPCs. The configuration is a
-- JSON object, the list of its members; `J` is a value that is not a string.
pub mod Again
pub mod Tests
use mofka.Prelude.{
  Outcome, ◌>>=◌, if◌then◌else◌, Bytes, returns, String, Bool, Option, none, some, List, [], ◌∷◌,
  ◌++◌, str_eq,
}
use mofka.Uuid.{Uuid, from_string, to_string}

pub data Json (J : Type 0) : Type 0 where
  text : String → Json J
  other : J → Json J

abbrev pub Config : Type 0 → Type 0
Config J = List (String × Json J)

pub record Provider (J : Type 0) : Type 0 where
  pub config : Config J
  pub uuid : Uuid

module _ {J : Type 0} where
  -- FindMember, and operator[] and HasMember with it: the first member of a name.
  unfoldable pub find_member : String → Config J → Option (Json J)
  find_member name [] = none
  find_member name ((n, v) ∷ ms) = if str_eq n name then some v else find_member name ms

  -- AddMember, which does not look for the name.
  unfoldable pub add_member : String → Json J → Config J → Config J
  add_member name value ms = ms ++ ((name, value) ∷ [])

  -- `uuid_parse` and `uuid_unparse` are libuuid's, `generated` is what uuid_generate gives.
  module _ (uuid_parse : String → Bool × Bytes) (uuid_unparse : Bytes → String) where
    choose_uuid : (generated : Uuid) → Option (Json J) → Outcome Uuid
    choose_uuid generated (some (text s)) = from_string uuid_parse s
    choose_uuid generated _ = returns generated

    -- ProviderImpl::ProviderImpl.
    unfoldable pub create : (generated : Uuid) → Config J → Outcome (Provider J)
    unfolding choose_uuid find_member add_member
    create generated config = do
      uuid ← choose_uuid generated (find_member "uuid" config)
      returns (record {
        config = add_member "uuid" (text (to_string uuid_unparse uuid)) config;
        uuid = uuid;
      })
