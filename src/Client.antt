-- ===== src/Client.antt =====
-- src/Client.cpp: how a client finds the targets of a service. The configuration that Bedrock reports is
-- given as what the code reads of it; `lookup` is the engine's, `E` an endpoint.
pub mod Discovery
pub mod Tests
use mofka.Prelude.{
  Outcome, ◌>>=◌, if◌then◌else◌, Bytes, returns, throws, ℕ, ◌%◌, ◌^◌, String, Bool, true, false,
  List, [], ◌∷◌, ◌++◌, str_eq,
}
use mofka.Uuid.{Uuid, from_string}

-- An entry of "providers".
pub record ProviderConfig : Type 0 where
  pub type : String
  pub provider_id : ℕ
  pub uuid : String

-- The members of the configuration: the address of a server, and its providers.
abbrev pub ServerConfigs : Type 0
ServerConfigs = List (String × List ProviderConfig)

-- PartitionTargetInfoImpl, with the provider handle's endpoint and id.
pub record PartitionTargetInfo (E : Type 0) : Type 0 where
  pub uuid : Uuid
  pub endpoint : E
  pub provider_id : ℕ

module _ {E : Type 0} (lookup : String → Outcome E) (uuid_parse : String → Bool × Bytes) where
  -- The inner loop of discoverMofkaTargets, over the providers of a server. The id becomes a uint16_t.
  unfoldable pub discover_at : E → List ProviderConfig → Outcome (List (PartitionTargetInfo E))
  discover_at endpoint [] = returns []
  discover_at endpoint (p ∷ ps) =
      let rest = discover_at endpoint ps in
      if str_eq p.type "mofka"
      then (do
        uuid ← from_string uuid_parse p.uuid
        targets ← rest
        returns (
            record { uuid = uuid; endpoint = endpoint; provider_id = p.provider_id % 2 ^ 16 }
            ∷ targets))
      else rest

  -- ClientImpl::discoverMofkaTargets.
  unfoldable pub discover_mofka_targets : ServerConfigs → Outcome (List (PartitionTargetInfo E))
  unfolding discover_at
  discover_mofka_targets [] = returns []
  discover_mofka_targets ((address, providers) ∷ servers) = do
    endpoint ← lookup address
    here ← discover_at endpoint providers
    there ← discover_mofka_targets servers
    returns (here ++ there)

  -- Client::connect, for a client that is initialized or not, and what making the group's handle and
  -- getting its configuration comes to. The exceptions are passed on with their texts.
  unfoldable pub connect : Bool → Outcome ServerConfigs → Outcome (List (PartitionTargetInfo E))
  connect false configs = throws "Uninitialized ServiceHandle instance"
  connect true configs = do servers ← configs; discover_mofka_targets servers
