-- ===== src/Selector.antt =====
-- src/DefaultTargetSelector.hpp: targets in turn. `T` is PartitionTargetInfo.
pub mod Rotation
pub mod Tests
use mofka.Prelude.{
  Outcome, ◌>>=◌, length, get_elem?, leb, ◌==◌, if◌then◌else◌, returns, throws, ℕ, zero, suc, ◌+◌,
  ◌-◌, ◌%◌, none, some, List, [], ◌∷◌,
}

pub record DefaultTargetSelector {ℓ} (T : Type ℓ) : Type ℓ where
  pub index : ℕ
  pub targets : List T

module _ {ℓ} {T : Type ℓ} where
  -- A selector that was just made.
  unfoldable pub initial : DefaultTargetSelector T
  initial = record { index = 0; targets = [] }

  -- DefaultTargetSelector::setTargets.
  unfoldable pub set_targets : DefaultTargetSelector T → List T → DefaultTargetSelector T
  set_targets s targets = record s { targets = targets }

  -- `m_targets.at(i)`, which throws std::out_of_range.
  abbrev at : List T → ℕ → Outcome T
  at ts i = elim (get_elem? ts i) [ none ↦ throws "vector::_M_range_check" | some t ↦ returns t ]

  -- DefaultTargetSelector::selectTargetFor. The Metadata is not looked at.
  unfoldable pub select_target_for : DefaultTargetSelector T → Outcome (T × DefaultTargetSelector T)
  select_target_for s =
      let n = length s.targets in
      let index = (if leb n s.index then s.index % n else s.index) + 1 in
      if n == 0
      then throws "TargetSelector has no target to select from"
      else (do t ← at s.targets (index - 1); returns (t, record s { index = index }))

  -- The targets of `k` selections, one after the other.
  unfoldable pub select_many :
      ℕ → DefaultTargetSelector T → Outcome (List T × DefaultTargetSelector T)
  select_many zero s = returns ([], s)
  select_many (suc k) s = do
    (t, s') ← select_target_for s
    (ts, s'') ← select_many k s'
    returns (t ∷ ts, s'')
