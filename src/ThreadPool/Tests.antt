-- ===== src/ThreadPool/Tests.antt =====
-- A pool of two execution streams, and one without.
use mofka.ThreadPool.Mixed.{func_of, ult_of}
use mofka.ThreadPool.Order.{run-create}
use mofka.PrioPool.{Queue, pool_push, priority, less, emplace, pool_pop}
use mofka.Prelude.{All, String, ◌≡◌, refl, some, List, [], ◌∷◌, ◌++◌, map, arith}
use mofka.ThreadPool.{
  push_all, Work, create, push_work, started, start_next, prioritized_start, Action, pushes, starts,
  run,
}

abbrev first_work : Work String
first_work = record { thread = 90; priority = 4; func = "first" }

abbrev second_work : Work String
second_work = record { thread = 60; priority = 5; func = "second" }

unmanaged_runs :
    (push_all (first_work ∷ second_work ∷ []) (create 0)).made ≡ "first" ∷ "second" ∷ []
unfolding push_all push_work create
unmanaged_runs = refl

-- The loop of a queue is pushed with priority 0.
abbrev loop_work : Work String
loop_work = record { thread = 30; priority = 0; func = "loop" }

abbrev mixed_actions : List (Action String)
mixed_actions = pushes first_work ∷ pushes loop_work ∷ starts ∷ starts ∷ pushes second_work ∷ []

run_runs : (run mixed_actions (create 2)).0 ≡ some "first" ∷ []
unfolding run prioritized_start start_next started push_work create pool_push pool_pop emplace less
run_runs = refl

run-create_example :
    (zs : Queue) × (rest : List (Work String)) × (some "first" ∷ some "second" ∷ []
      ≡ (run mixed_actions (create 2)).0 ++ map func_of rest)
    × ((run mixed_actions (create 2)).1.pool ≡ zs ++ map ult_of rest)
    × All (λ u. priority u ≡ 0) zs
run-create_example = run-create 2 mixed_actions (omega arith) (ground arith)
