-- ===== src/PrioPool/Tests.antt =====
-- The properties of the pool at concrete queues.
use mofka.Prelude.{length, All, ℕ, ◌≤◌, min, ◌≡◌, refl, some, [], ◌∷◌, ◌++◌}
use mofka.PrioPool.{Ult, priority, less, Queue, pool_pop_many}
use mofka.PrioPool.Order.{IsOrdered, pool_pop_many-least}

abbrev ult : ℕ → ℕ → Ult
ult p address = record { args = some p; thread = address }

abbrev two_ults : Queue
two_ults = ult 1 70 ∷ ult 4 60 ∷ []

two_ults-IsOrdered : IsOrdered two_ults
unfolding less
two_ults-IsOrdered = ((refl, tt), (tt, tt))

pool_pop_many-least_example :
    ((pool_pop_many 1 two_ults).0 ++ (pool_pop_many 1 two_ults).1 ≡ two_ults)
    × (length (pool_pop_many 1 two_ults).0 ≡ min 1 (length two_ults))
    × All
        (λ u. All (λ v. priority u ≤ priority v) (pool_pop_many 1 two_ults).1)
        (pool_pop_many 1 two_ults).0
pool_pop_many-least_example = pool_pop_many-least 1 two_ults two_ults-IsOrdered
