-- ===== src/Client/Discovery.antt =====
-- Which targets a client finds.
use mofka.Prelude.{
  if◌then◌else◌, Bool-cases, Bytes, returns, ◌%◌, ◌^◌, String, ◌≡◌, refl, ap, inl, inr, true, false,
  List, [], ◌∷◌, ◌++◌, map, str_eq,
}
use mofka.Uuid.{from_string}
use mofka.Client.{
  ProviderConfig, ServerConfigs, PartitionTargetInfo, discover_at, discover_mofka_targets, connect,
}

-- The providers of all servers, each with the address of its server, in their order.
abbrev pub located : ServerConfigs → List (String × ProviderConfig)
located [] = []
located ((address, providers) ∷ servers) = map (λ p. (address, p)) providers ++ located servers

-- Those of Mofka.
abbrev pub of_mofka : List (String × ProviderConfig) → List (String × ProviderConfig)
of_mofka [] = []
of_mofka ((a, p) ∷ ps) = if str_eq p.type "mofka" then (a, p) ∷ of_mofka ps else of_mofka ps

module _ {E : Type 0} (endpoint_of : String → E) (bytes_of : String → Bytes) where
  -- What is made of a provider.
  abbrev pub target_at : String × ProviderConfig → PartitionTargetInfo E
  target_at (address, p) = record {
    uuid = record { m_data = bytes_of p.uuid };
    endpoint = endpoint_of address;
    provider_id = p.provider_id % 2 ^ 16;
  }

  of_mofka-append :
      (xs ys : List (String × ProviderConfig)) → of_mofka (xs ++ ys) ≡ of_mofka xs ++ of_mofka ys
  of_mofka-append [] ys = refl
  of_mofka-append ((a, p) ∷ xs) ys = elim (Bool-cases (str_eq p.type "mofka")) [
    | inl h ↦ rw h (ap (λ r. (a, p) ∷ r) (of_mofka-append xs ys))
    | inr h ↦ rw h (of_mofka-append xs ys)
  ]

  map-append :
      (xs ys : List (String × ProviderConfig))
      → map target_at (xs ++ ys) ≡ map target_at xs ++ map target_at ys
  map-append [] ys = refl
  map-append (x ∷ xs) ys = ap (λ r. target_at x ∷ r) (map-append xs ys)

  discover_at_lem :
      (address : String) (ps : List ProviderConfig)
      → discover_at
          (λ a. returns (endpoint_of a))
          (λ s. (false, bytes_of s))
          (endpoint_of address)
          ps
        ≡ returns (map target_at (of_mofka (map (λ p. (address, p)) ps)))
  unfolding discover_at from_string
  discover_at_lem address [] = refl
  discover_at_lem address (p ∷ ps) = elim (Bool-cases (str_eq p.type "mofka")) [
    | inl h ↦ rw (h, discover_at_lem address ps) refl
    | inr h ↦ rw (h, discover_at_lem address ps) refl
  ]

  -- A client that is initialized, with every address found and every UUID valid, connects to exactly the
  -- providers of type "mofka" among those of all servers, in their order, each with its server's
  -- endpoint, its UUID and its id as a 16-bit number.
  pub connect-of_mofka :
      (servers : ServerConfigs)
      → connect (λ a. returns (endpoint_of a)) (λ s. (false, bytes_of s)) true (returns servers)
        ≡ returns (map target_at (of_mofka (located servers)))
  unfolding connect discover_mofka_targets
  connect-of_mofka [] = refl
  connect-of_mofka ((address, ps) ∷ servers) =
      rw
        (
          of_mofka-append (map (λ p. (address, p)) ps) (located servers),
          map-append (of_mofka (map (λ p. (address, p)) ps)) (of_mofka (located servers)),
          discover_at_lem address ps,
        )
        (rw (connect-of_mofka servers) refl)
