-- ===== src/ThreadPool.antt =====
-- src/ThreadPoolImpl.hpp: a thread pool over the priority pool of src/PrioPool.cpp. `F` is what a ULT
-- does; the memory of the arguments of ULTs is a function from the address of a ULT.
pub mod Mixed
pub mod Order
pub mod Tests
use mofka.Prelude.{◌==◌, if◌then◌else◌, ℕ, Bool, not, Option, none, some, List, [], ◌∷◌, ◌++◌}
use mofka.PrioPool
use mofka.PrioPool.{Ult, Queue, pool_push, pool_pop}

-- Work that is pushed: `thread` is the address that ABT_thread_create gives its ULT.
pub record Work (F : Type 0) : Type 0 where
  pub thread : ℕ
  pub priority : ℕ
  pub func : F

-- `prioritized` tells that m_pool_def is set. Work that is pushed to the pool of another execution
-- stream, which makes a thread of it at once, is `made`.
pub record ThreadPool (F : Type 0) : Type 0 where
  pub prioritized : Bool
  pub managed_xstreams : ℕ
  pub pool : Queue
  pub args : ℕ → Option F
  pub made : List F

module _ {F : Type 0} where
  -- ThreadPoolImpl::ThreadPoolImpl.
  unfoldable pub create : (count : ℕ) → ThreadPool F
  create count = record {
    prioritized = not (count == 0);
    managed_xstreams = count;
    pool = [];
    args = λ thread. none;
    made = [];
  }

  -- ThreadPoolImpl::pushWork.
  unfoldable pub push_work : Work F → ThreadPool F → ThreadPool F
  push_work w t =
      if t.prioritized
      then record t {
        pool = pool_push (record { args = some w.priority; thread = w.thread }) t.pool;
        args = λ thread. if thread == w.thread then some w.func else t.args thread;
      }
      else record t { made = t.made ++ (w.func ∷ []) }

  started : Option Ult × Queue → ThreadPool F → Option F × ThreadPool F
  started (none, pool) t = (none, record t { pool = pool })
  started (some u, pool) t = (t.args u.thread, record t { pool = pool })

  -- An execution stream of the pool takes a ULT and starts what func_wrapper finds in its argument.
  unfoldable pub start_next : ThreadPool F → Option F × ThreadPool F
  unfolding started
  start_next t = started (pool_pop t.pool) t

  unfoldable pub push_all : List (Work F) → ThreadPool F → ThreadPool F
  push_all [] t = t
  push_all (w ∷ ws) t = push_all ws (push_work w t)

  -- What is started by some takes, one after the other.
  -- The work that a start takes off the pool, if its priority is not 0.
  unfoldable pub prioritized_start : Option Ult × Queue → ThreadPool F → List (Option F)
  prioritized_start (none, pool) t = []
  prioritized_start (some u, pool) t = if PrioPool.priority u == 0 then [] else t.args u.thread ∷ []

-- What happens to a pool: work is pushed to it, and an execution stream starts the next.
pub data Action (F : Type 0) : Type 0 where
  pushes : Work F → Action F
  starts : Action F

module _ {F : Type 0} where
  -- The work with a priority that is started, in this order, and the pool that is left.
  unfoldable pub run : List (Action F) → ThreadPool F → List (Option F) × ThreadPool F
  unfolding prioritized_start start_next
  run [] t = ([], t)
  run (pushes w ∷ actions) t = run actions (push_work w t)
  run (starts ∷ actions) t =
      let (later, t') = run actions (start_next t).1 in
      (prioritized_start (pool_pop t.pool) t ++ later, t')

  -- The work with a priority that is pushed.
  abbrev pub prioritized_work : List (Action F) → List (Work F)
  prioritized_work [] = []
  prioritized_work (starts ∷ actions) = prioritized_work actions
  prioritized_work (pushes w ∷ actions) =
      let rest = prioritized_work actions in if w.priority == 0 then rest else w ∷ rest
