-- ===== src/TopicManager/Default/Creation.antt =====
-- DefaultTopicManager::create of src/DefaultTopicManager.cpp and WarabiDataStore::create of
-- src/WarabiDataStore.hpp. JSON values are the parameter `JsonConfig`; what the two schema validators
-- report of a configuration is given as functions, and `make_target` is Warabi's client.
use mofka.Prelude.{
  Outcome, if◌then◌else◌, returns, throws, ℕ, String, Bool, true, false, Option, none, some, List,
  [], ◌∷◌,
}
use mofka.TopicManager.Default.{DefaultTopic, initial}

-- operator[], GetString and GetUint of a RapidJSON value; `none` is a member that is not there, or a value
-- of another type, which the code then reads.
pub record JsonConfig (D : Type 0) : Type 0 where
  pub member : D → String → Option D
  pub string_value : D → Option String
  pub uint_value : D → Option ℕ

no_errors : List String → Bool
no_errors [] = true
no_errors (e ∷ es) = false

module _ {D T : Type 0} (X : JsonConfig D) (make_target : String → ℕ → Outcome T) where
  string_at : D → String → Option String
  string_at config key = elim (X.member config key) [ none ↦ none | some d ↦ X.string_value d ]

  uint_at : D → String → Option ℕ
  uint_at config key = elim (X.member config key) [ none ↦ none | some d ↦ X.uint_value d ]

  target_at : Option String → Option ℕ → Option (Outcome T)
  target_at (some address) (some provider_id) = some (make_target address provider_id)
  target_at _ _ = none

  -- WarabiDataStore::create, as the target that it gives to the data store.
  create_data_store : (validate : D → List String) → D → Option (Outcome T)
  unfolding no_errors string_at uint_at target_at
  create_data_store validate config =
      if no_errors (validate config)
      then target_at (string_at config "__address__") (uint_at config "__provider_id__")
      else some (throws "Error(s) while validating JSON config for WarabiDataStore")

  -- The topic manager for what making its data store comes to.
  with_data_store : Option (Outcome T) → Option (Outcome (T × DefaultTopic))
  with_data_store none = none
  with_data_store (some (throws what)) = some (throws what)
  with_data_store (some (returns target)) = some (returns (target, initial))

  create_from :
      (validate_data_store : D → List String) → Option D → Option (Outcome (T × DefaultTopic))
  unfolding create_data_store with_data_store
  create_from validate_data_store none = none
  create_from validate_data_store (some config) =
      with_data_store (create_data_store validate_data_store config)

  -- DefaultTopicManager::create.
  unfoldable pub create :
      (validate validate_data_store : D → List String) → D → Option (Outcome (T × DefaultTopic))
  unfolding no_errors create_from
  create validate validate_data_store config =
      if no_errors (validate config)
      then create_from validate_data_store (X.member config "data")
      else some (throws "Error(s) while validating JSON config for DefaultTopicManager")
