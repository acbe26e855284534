-- ===== src/Result.antt =====
-- include/mofka/Result.hpp: what an RPC sends back. `serialize` passes fields to an archive; a
-- message is the list of the fields that were passed.
use mofka.Prelude.{
  if◌then◌else◌, Bool-cases, String, ◌≡◌, inl, inr, Bool, true, false, Option, none, some, List, [],
  ◌∷◌,
}

pub data Field (V : Type 0) : Type 0 where
  flag : Bool → Field V
  text : String → Field V
  item : V → Field V

-- Result<T>.
pub record Result (V : Type 0) : Type 0 where
  pub success : Bool
  pub error : String
  pub value : V

-- Result<std::string>, whose error and value are one member, and Result<bool>, whose success and
-- value are one member. Result<void> has the members of Result<bool>.
pub record StringResult : Type 0 where
  pub success : Bool
  pub content : String

pub record BoolResult : Type 0 where
  pub success : Bool
  pub error : String

module _ {V : Type 0} (default : V) where
  unfoldable pub initial : Result V
  initial = record { success = true; error = ""; value = default }

  unfoldable pub save : Result V → List (Field V)
  save r = flag r.success ∷ (if r.success then item r.value ∷ [] else text r.error ∷ [])

  -- Into a result that was just made; `none` for a message of another form.
  unfoldable pub load : List (Field V) → Option (Result V)
  load (flag true ∷ item v ∷ []) = some (record { success = true; error = ""; value = v })
  load (flag false ∷ text e ∷ []) = some (record { success = false; error = e; value = default })
  load _ = none

  -- What arrives has the success of what was sent, its value if that is true, else its error,
  -- and in place of the other the one of a new result.
  pub load-save_result :
      (r : Result V)
      → load (save r)
        ≡ some (
            if r.success
            then record { success = true; error = ""; value = r.value }
            else record { success = false; error = r.error; value = default })
  unfolding load save
  load-save_result r = elim (Bool-cases r.success) [ inl good ↦ rw good | inr bad ↦ rw bad ]

unfoldable pub save_string : StringResult → List (Field String)
save_string r = flag r.success ∷ text r.content ∷ []

unfoldable pub load_string : List (Field String) → Option StringResult
load_string (flag b ∷ text s ∷ []) = some (record { success = b; content = s })
load_string _ = none

unfoldable pub save_bool : BoolResult → List (Field Bool)
save_bool r = flag r.success ∷ (if r.success then [] else text r.error ∷ [])

unfoldable pub load_bool : List (Field Bool) → Option BoolResult
load_bool (flag true ∷ []) = some (record { success = true; error = "" })
load_bool (flag false ∷ text e ∷ []) = some (record { success = false; error = e })
load_bool _ = none

-- `Result(bool b)`, and `value()`.
unfoldable pub of_bool : Bool → BoolResult
of_bool b = record { success = b; error = "" }

unfoldable pub bool_value : BoolResult → Bool
bool_value r = r.success
