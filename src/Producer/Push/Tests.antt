-- ===== src/Producer/Push/Tests.antt =====
-- Runs of a producer, and the properties at concrete states.
use mofka.Prelude.{
  Outcome, ◌==◌, if◌then◌else◌, returns, throws, ℕ, ◌≡◌, refl, subst, true, false, [], ◌∷◌,
}
use mofka.Producer.Push.{
  ProducerImpl, strict, contains, initial, push, fail, may_flush, pushes, Reach, here, next,
}
use mofka.Producer.Push.Turns.{fail_blocks}

-- All events go to target 7.
abbrev to_seven : ℕ → Outcome ℕ
to_seven i = returns 7

-- Event 1 is not valid.
abbrev but_one : ℕ → Outcome ℕ
but_one i = if i == 1 then throws "bad" else returns 7

abbrev two_pushed : ProducerImpl ℕ
two_pushed = record {
  ordering = strict;
  num_pushed_events = 2;
  num_ready_events = 0;
  num_posted_ults = 2;
  posted = 0 ∷ 1 ∷ [];
  entered = [];
  failed = [];
}

two_pushed_runs : push (push (initial strict)) ≡ two_pushed
unfolding push initial
two_pushed_runs = refl

Reach-two : (select : ℕ → Outcome ℕ) → Reach select (initial strict) two_pushed
Reach-two select =
    subst (Reach select (initial strict)) two_pushed_runs (next (next here pushes) pushes)

fail_blocks_example :
    (contains 0 (fail two_pushed 1 "bad").posted ≡ true)
    × (may_flush (fail two_pushed 1 "bad") ≡ false)
unfolding contains
fail_blocks_example =
    fail_blocks but_one 0 1 7 "bad" (Reach-two but_one) refl refl refl refl refl refl here
