-- ===== src/Provider/Creation/Again.antt =====
-- A provider that is created again from its own configuration.
use mofka.Uuid.{Uuid, from_string, to_string}
use mofka.Prelude.{
  >>=-eq-returns, if◌then◌else◌, Bytes, returns, String, ◌≡◌, refl, ◌≢◌, Bool, false, Option, none,
  some, [], ◌∷◌, arith, str_eq,
}
use mofka.Provider.Creation.{
  Json, text, other, Config, Provider, find_member, add_member, choose_uuid, create,
}

from_string-to_string :
    (uuid_parse : String → Bool × Bytes) (uuid_unparse : Bytes → String) (u : Uuid)
    → uuid_parse (uuid_unparse u.m_data) ≡ (false, u.m_data)
    → from_string uuid_parse (to_string uuid_unparse u) ≡ returns u
unfolding from_string to_string
from_string-to_string uuid_parse uuid_unparse u parses = rw parses refl

module _ {J : Type 0} where
  find_member-add :
      (name n : String) (value : Json J) (ms : Config J)
      → find_member name (add_member n value ms) ≡ elim (find_member name ms) [
        | some v ↦ some v
        | none ↦ if str_eq n name then some value else none
      ]
  unfolding find_member add_member
  find_member-add name n value [] = refl
  find_member-add name n value ((m, v) ∷ ms) = ground (arith, find_member-add name n value ms)

  module _ (uuid_parse : String → Bool × Bytes) (uuid_unparse : Bytes → String) (generated : Uuid)
      (parses : uuid_parse (uuid_unparse generated.m_data) ≡ (false, generated.m_data)) where
    chosen_again :
        (generated' u : Uuid) (o : Option (Json J))
        → ((v : J) → o ≢ some (other v))
        → choose_uuid uuid_parse uuid_unparse generated o ≡ returns u
        → choose_uuid uuid_parse uuid_unparse generated'
            (elim o [ some v ↦ some v | none ↦ some (text (to_string uuid_unparse u)) ])
          ≡ returns u
    unfolding choose_uuid
    chosen_again generated' u none no_other e =
        let is_it : generated ≡ u = cc in
        rw (← is_it) (from_string-to_string uuid_parse uuid_unparse generated parses)
    chosen_again generated' u (some (text s)) no_other e = e
    chosen_again generated' u (some (other v)) no_other e = absurd (no_other v refl)

    -- A provider that is created again from the configuration of a provider has the uuid of that one,
    -- whatever uuid is generated for it: the configuration that a provider reports can be used to restart
    -- it. The first configuration gives no uuid or a string for it, and libuuid parses what it
    -- prints of the UUID that was generated.
    pub create-create :
        (generated' : Uuid) (config : Config J) (p : Provider J)
        → ((v : J) → find_member "uuid" config ≢ some (other v))
        → create uuid_parse uuid_unparse generated config ≡ returns p
        → (q : Provider J) × (create uuid_parse uuid_unparse generated' p.config ≡ returns q)
          × (q.uuid ≡ p.uuid)
    unfolding create
    create-create generated' config p no_other made =
        let (u, chosen, is_p) =
          >>=-eq-returns (choose_uuid uuid_parse uuid_unparse generated (find_member "uuid" config))
            _ made in
        let name = text (to_string uuid_unparse u) in
        let config' : Config J = add_member "uuid" name config in
        let first : record { config = config'; uuid = u } ≡ p = cc in
        let again : choose_uuid uuid_parse uuid_unparse generated' (find_member "uuid" config')
            ≡ returns u =
          rw (find_member-add "uuid" "uuid" name config)
            (chosen_again generated' u (find_member "uuid" config) no_other chosen) in
        rw (← first)
          (record { config = add_member "uuid" name config'; uuid = u }, rw again refl, refl)
