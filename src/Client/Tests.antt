-- ===== src/Client/Tests.antt =====
-- The targets of a service of two servers.
use mofka.Prelude.{if◌then◌else◌, Bytes, returns, String, ◌≡◌, true, false, [], ◌∷◌, map, str_eq}
use mofka.Client.{ServerConfigs, connect}
use mofka.Client.Discovery.{located, of_mofka, target_at, connect-of_mofka}

abbrev servers : ServerConfigs
servers =
    (
      "na+sm://1",
      record { type = "warabi"; provider_id = 1; uuid = "" }
          ∷ record { type = "mofka"; provider_id = 2; uuid = "x" }
          ∷ [],
    )
    ∷ ("na+sm://2", record { type = "mofka"; provider_id = 3; uuid = "y" } ∷ [])
    ∷ []

abbrev bytes_of : String → Bytes
bytes_of s = if str_eq s "x" then 1 ∷ [] else 2 ∷ []

connect-of_mofka_example :
    connect (λ a. returns a) (λ s. (false, bytes_of s)) true (returns servers)
    ≡ returns (map (target_at (λ a. a) bytes_of) (of_mofka (located servers)))
connect-of_mofka_example = connect-of_mofka (λ a. a) bytes_of servers
