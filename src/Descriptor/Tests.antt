-- ===== src/Descriptor/Tests.antt =====
-- Runs of the descriptor operations, and the properties at concrete inputs.
use mofka.Prelude.{returns, ℕ, ◌+◌, ◌-◌, ◌/◌, ◌≡◌, refl, ◌≢◌, [], ◌∷◌, ◌++◌, arith}
use mofka.Descriptor.{DataDescriptor, sub, strided, unstructured, from, save, load}
use mofka.Descriptor.Encoding.{load-save, IsDescriptor}
use mofka.Descriptor.Views.{make_sub_view, flatten}
use mofka.Descriptor.Views.Laws.{flatten-make_sub_view}
use mofka.Descriptor.Views.Strides.{IsCeilQuotient}

abbrev letters : DataDescriptor
letters = record { location = 7 ∷ 8 ∷ []; views = []; size = 26 }

abbrev viewed : DataDescriptor
viewed = record letters {
  views =
      sub (record { offset = 4; size = 8 })
      ∷ strided (record { offset = 1; numblocks = 5; blocksize = 2; gapsize = 3 })
      ∷ unstructured ((1, 3) ∷ (7, 5) ∷ [])
      ∷ [];
}

-- A ceiling division that is right for all numbers.
abbrev ceil_div : ℕ → ℕ → ℕ
ceil_div a b = (a + b - 1) / b

ceil_div-IsCeilQuotient : IsCeilQuotient ceil_div
ceil_div-IsCeilQuotient a b h k l = refl

viewed-IsDescriptor : IsDescriptor viewed
viewed-IsDescriptor = record {
  sized = omega arith;
  located = omega arith;
  counted = omega arith;
  selections = omega arith;
}

load-save_example : load (save [] viewed ++ (9 ∷ [])) ≡ returns (viewed, 9 ∷ [])
load-save_example = load-save viewed (9 ∷ []) viewed-IsDescriptor

sub_view_size : (make_sub_view letters 4 8).size ≢ 0
unfolding make_sub_view
sub_view_size e = omega arith

flatten-make_sub_view_example :
    flatten (make_sub_view (from [] 26) 4 8) ≡ returns (record { offset = 4; size = 4 } ∷ [])
flatten-make_sub_view_example =
    flatten-make_sub_view [] 26 4 8 (omega arith) (omega arith) (omega arith) (omega arith)
