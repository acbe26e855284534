-- ===== src/Selector/Tests.antt =====
-- The properties of the target selector at concrete states.
use mofka.Prelude.{returns, ℕ, ◌≡◌, some, List, [], ◌∷◌, map, arith}
use mofka.Selector.{DefaultTargetSelector, select_many}
use mofka.Selector.Rotation.{select_many-rotation, rotation}

abbrev three_targets : DefaultTargetSelector ℕ
three_targets = record { index = 3; targets = 10 ∷ 11 ∷ 12 ∷ [] }

select_many-rotation_example :
    (ts : List ℕ) × (s' : DefaultTargetSelector ℕ) × (select_many 5 three_targets
      ≡ returns (ts, s'))
    × (map some ts ≡ rotation three_targets.targets three_targets.index 5)
    × (s'.targets ≡ three_targets.targets)
select_many-rotation_example = select_many-rotation 5 three_targets (omega arith)
