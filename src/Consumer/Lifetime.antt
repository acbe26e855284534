-- ===== src/Consumer/Lifetime.antt =====
-- ConsumerImpl::start, pullFrom and join of src/Consumer.cpp, over the providers of the targets: an RPC
-- is the handler of src/ProviderImpl.hpp. The ULTs that start() submits run later, and each ends when its
-- RPC does: of requestEvents, which answers when feeding ends, this is the part that registers the
-- consumer.
use mofka.Prelude.{
  ◌==◌, if◌then◌else◌, ℕ, ◌+◌, String, Bool, true, ◌&&◌, Option, none, some, List, [], ◌∷◌,
}
use mofka.Uuid.{Uuid}
use mofka.Provider.Consumers.{Consumers, request_events, remove_consumer}

-- What ConsumerImpl sends of itself, and the providers of its targets.
pub record ConsumerImpl : Type 0 where
  pub consumer_ctx : ℕ
  pub uuid : Uuid
  pub name : String
  pub targets : List ℕ

-- The consumers at each provider.
abbrev pub Providers : Type 0
Providers = ℕ → Consumers

unfoldable pub set_consumers : ℕ → Consumers → Providers → Providers
set_consumers t s ps q = if t == q then s else ps q

-- ConsumerImpl::pullFrom: no limit on the events, and no size of a batch.
unfoldable pub pull_from_target :
    (c : ConsumerImpl) (target_info_index target : ℕ) → Providers → Providers
unfolding set_consumers
pull_from_target c target_info_index target ps =
    set_consumers target
      (request_events c.uuid c.consumer_ctx target_info_index c.name 0 (ps target)) ps

-- The loop of start: the ULTs that are submitted, each by the index of its target and the target.
pub start_from : (i : ℕ) (targets : List ℕ) → List (ℕ × ℕ)
start_from i [] = []
start_from i (t ∷ ts) = (i, t) ∷ start_from (i + 1) ts

-- ConsumerImpl::start.
unfoldable pub start : ConsumerImpl → List (ℕ × ℕ)
unfolding start_from
start c = start_from 0 c.targets

-- The RPCs of join: `none` is one that waits.
pub join_from : (c : ConsumerImpl) (targets : List ℕ) → Providers → Option Providers
unfolding set_consumers
join_from c [] ps = some ps
join_from c (t ∷ ts) ps = elim (remove_consumer c.uuid (ps t)) [
  | none ↦ none
  | some s ↦ join_from c ts (set_consumers t s ps)
]

-- The loop that waits: whether all of the eventuals are set.
pub all_set : List Bool → Bool
all_set [] = true
all_set (ev ∷ evs) = ev && all_set evs

-- ConsumerImpl::join, by which of m_pulling_ult_completed are set when it has sent its RPCs: `none` is a
-- wait.
unfoldable pub join :
    ConsumerImpl → (pulling_ult_completed : List Bool) → Providers → Option Providers
unfolding join_from all_set
join c pulling_ult_completed ps = elim (join_from c c.targets ps) [
  | none ↦ none
  | some ps' ↦ if all_set pulling_ult_completed then some ps' else none
]
