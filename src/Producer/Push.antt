-- ===== src/Producer/Push.antt =====
-- Producer::push and flush of src/Producer.cpp, with the counters of src/ProducerImpl.hpp: the ULTs
-- that push() submits validate their events and enter them into the queues of their targets, at
-- their turn if the ordering is strict. Counters do not wrap. That push() takes the id of an event and
-- then counts its ULT is one step.
pub mod Ids
pub mod Turns
pub mod Tests
use mofka.Prelude.{
  Outcome, ◌==◌, if◌then◌else◌, returns, throws, ℕ, ◌+◌, ◌-◌, String, ◌≡◌, Bool, true, false, ◌||◌,
  List, [], ◌∷◌, ◌++◌,
}

pub data Ordering : Type 0 where
  strict loose : Ordering

-- `posted` are the ids of the ULTs that have not ended; `num_posted_ults` counts them. `entered` are
-- the events in the order in which they entered the queue of their target.
pub record ProducerImpl (T : Type 0) : Type 0 where
  pub ordering : Ordering
  pub num_pushed_events : ℕ
  pub num_ready_events : ℕ
  pub num_posted_ults : ℕ
  pub posted : List ℕ
  pub entered : List (T × ℕ)
  pub failed : List (ℕ × String)

unfoldable pub contains : ℕ → List ℕ → Bool
contains i [] = false
contains i (j ∷ js) = j == i || contains i js

unfoldable pub remove : ℕ → List ℕ → List ℕ
remove i [] = []
remove i (j ∷ js) = if j == i then js else j ∷ remove i js

module _ {T : Type 0} where
  unfoldable pub initial : Ordering → ProducerImpl T
  initial ordering = record {
    ordering = ordering;
    num_pushed_events = 0;
    num_ready_events = 0;
    num_posted_ults = 0;
    posted = [];
    entered = [];
    failed = [];
  }

  -- Producer::push: the id is taken and the ULT submitted.
  unfoldable pub push : ProducerImpl T → ProducerImpl T
  push p = record p {
    num_pushed_events = p.num_pushed_events + 1;
    num_posted_ults = p.num_posted_ults + 1;
    posted = p.posted ++ (p.num_pushed_events ∷ []);
  }

  -- The test of the loop of step 3.3.
  unfoldable pub has_turn : ProducerImpl T → ℕ → Bool
  has_turn p i = elim p.ordering [ strict ↦ i == p.num_ready_events | loose ↦ true ]

  -- Steps 3.4 to 3.9 of a ULT whose event goes to a target.
  unfoldable pub enter : ProducerImpl T → ℕ → T → ProducerImpl T
  enter p i target = record p {
    num_ready_events = p.num_ready_events + 1;
    num_posted_ults = p.num_posted_ults - 1;
    posted = remove i p.posted;
    entered = p.entered ++ ((target, i) ∷ []);
  }

  -- The handler of an exception, with steps 3.8 and 3.9.
  unfoldable pub fail : ProducerImpl T → ℕ → String → ProducerImpl T
  fail p i ex = record p {
    num_ready_events = p.num_ready_events + 1;
    num_posted_ults = p.num_posted_ults - 1;
    posted = remove i p.posted;
    failed = p.failed ++ ((i, ex) ∷ []);
  }

  -- The predicate for which Producer::flush waits before it flushes the queues.
  unfoldable pub may_flush : ProducerImpl T → Bool
  may_flush p = p.num_posted_ults == 0

-- `select i` is how the validation and the selection of a target end for event `i`.
module _ {T : Type 0} (select : ℕ → Outcome T) where
  pub data Step (p : ProducerImpl T) : ProducerImpl T → Type 0 where
    pushes : Step p (push p)
    enters :
        (i : ℕ) (target : T)
        → contains i p.posted ≡ true
        → select i ≡ returns target
        → has_turn p i ≡ true
        → Step p (enter p i target)
    fails :
        (i : ℕ) (ex : String)
        → contains i p.posted ≡ true
        → select i ≡ throws ex
        → Step p (fail p i ex)

  pub data Reach (p : ProducerImpl T) : ProducerImpl T → Type 0 where
    here : Reach p p
    next : {q r : ProducerImpl T} → Reach p q → Step q r → Reach p r
