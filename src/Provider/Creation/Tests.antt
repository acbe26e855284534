-- ===== src/Provider/Creation/Tests.antt =====
-- A provider whose configuration has no uuid; a UUID is printed as its first byte in letters.
use mofka.Provider.Creation.Again.{create-create}
use mofka.Provider.Creation.{create, Provider, Config, text, other, find_member, add_member}
use mofka.Uuid.{Uuid, cleared}
use mofka.Prelude.{
  if◌then◌else◌, Bytes, returns, ℕ, String, ◌≡◌, refl, Bool, true, false, [], ◌∷◌, ◌++◌, str_eq,
}

abbrev unparse : Bytes → String
unparse bytes = "u"

abbrev parse : String → Bool × Bytes
parse s = if str_eq s "u" then (false, 7 ∷ []) else (true, [])

abbrev seven : Uuid
seven = record { m_data = 7 ∷ [] }

abbrev named : Config ℕ
named = ("name", text "p") ∷ ("size", other 3) ∷ []

abbrev first : Provider ℕ
first = record { config = named ++ (("uuid", text "u") ∷ []); uuid = seven }

create_runs : create parse unparse seven named ≡ returns first
unfolding create find_member add_member mofka.Uuid.to_string
create_runs = refl

create-create_example :
    (q : Provider ℕ) × (create parse unparse cleared first.config ≡ returns q) × (q.uuid ≡ seven)
create-create_example =
    create-create parse unparse seven refl cleared named first (λ v e. unfold find_member in cc e)
      create_runs

-- A configuration whose uuid is no string keeps it, and the provider's own stands behind it.
other_uuid_runs :
    create {J = ℕ} parse unparse seven (("uuid", other 3) ∷ [])
    ≡ returns (record { config = ("uuid", other 3) ∷ ("uuid", text "u") ∷ []; uuid = seven })
unfolding create find_member add_member mofka.Uuid.to_string
other_uuid_runs = refl
