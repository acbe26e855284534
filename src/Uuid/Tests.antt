-- ===== src/Uuid/Tests.antt =====
-- Runs of a concrete UUID.
use mofka.Prelude.{returns, ◌≡◌, refl, false, [], ◌∷◌, ◌++◌}
use mofka.Uuid.{Uuid, cleared, same, save, load}

abbrev some_uuid : Uuid
some_uuid = record {
  m_data = 1 ∷ 2 ∷ 3 ∷ 4 ∷ 5 ∷ 6 ∷ 7 ∷ 8 ∷ 9 ∷ 10 ∷ 11 ∷ 12 ∷ 13 ∷ 14 ∷ 15 ∷ 16 ∷ [];
}

saved_runs : load (save [] some_uuid ++ (7 ∷ [])) ≡ returns (some_uuid, 7 ∷ [])
unfolding load save mofka.Archive.read
saved_runs = refl

cleared_runs : same some_uuid cleared ≡ false
unfolding same
cleared_runs = refl
