-- ===== src/Provider/Consumers.antt =====
-- The consumers of src/ProviderImpl.hpp, with src/ConsumerHandleImpl.hpp and src/ConsumerHandle.cpp: a
-- handle is made for each request of events and shared by the handler that feeds the consumer and by
-- m_consumers. `handles` is the memory of the handles; m_consumers is a function from ids.
-- `taken_out` tells of the handles that a removal has taken out of m_consumers.
pub mod Lookups
pub mod Registered
pub mod Removal
pub mod Tests
use mofka.Prelude.{
  ◌==◌, if◌then◌else◌, ℕ, suc, String, ◌≡◌, ◌≢◌, Bool, true, false, Option, none, some,
}
use mofka.Uuid.{Uuid, same}

-- ConsumerHandleImpl, with the id that the handler was called with. The topic, the endpoint and the remote procedure, which only feeding uses, are
-- left out, and so is m_sent_events, which nothing reads.
pub record Handle : Type 0 where
  pub consumer_id : Uuid
  pub consumer_ctx : ℕ
  pub target_info_index : ℕ
  pub consumer_name : String
  pub max_events : ℕ
  pub should_stop : Bool

pub record Consumers : Type 0 where
  pub handles : ℕ → Option Handle
  pub num_handles : ℕ
  pub consumers : Uuid → Option ℕ
  pub taken_out : ℕ → Bool

abbrev pub no_consumers : Consumers
no_consumers = record {
  handles = λ p. none;
  num_handles = 0;
  consumers = λ id. none;
  taken_out = λ p. false;
}

-- unordered_map::emplace: what is there stays.
unfoldable pub emplace : Uuid → ℕ → (Uuid → Option ℕ) → Uuid → Option ℕ
emplace id p m k = elim (m k) [ some q ↦ some q | none ↦ if same id k then some p else none ]

unfoldable pub erase : Uuid → (Uuid → Option ℕ) → Uuid → Option ℕ
erase id m k = if same id k then none else m k

-- ConsumerHandleImpl::stop, but for waking the topic up.
unfoldable pub stop : Handle → Handle
stop h = record h { should_stop = true }

unfoldable pub set_handle : ℕ → Handle → (ℕ → Option Handle) → ℕ → Option Handle
set_handle p h m q = if p == q then some h else m q

-- ConsumerHandleImpl::ConsumerHandleImpl.
abbrev pub new_handle :
    (id : Uuid) (consumer_ctx target_info_index : ℕ) (consumer_name : String) (count : ℕ) → Handle
new_handle id consumer_ctx target_info_index consumer_name count = record {
  consumer_id = id;
  consumer_ctx = consumer_ctx;
  target_info_index = target_info_index;
  consumer_name = consumer_name;
  max_events = count;
  should_stop = false;
}

-- requestEvents up to feedConsumer: a new handle, and its entry.
unfoldable pub request_events :
    (id : Uuid) (consumer_ctx target_info_index : ℕ) (consumer_name : String) (count : ℕ)
    → Consumers
    → Consumers
unfolding emplace set_handle
request_events id consumer_ctx target_info_index consumer_name count s =
    let handle = new_handle id consumer_ctx target_info_index consumer_name count in
    record s {
      handles = set_handle s.num_handles handle s.handles;
      num_handles = suc s.num_handles;
      consumers = emplace id s.num_handles s.consumers;
    }

-- requestEvents after feedConsumer.
unfoldable pub finish_request : (id : Uuid) → Consumers → Consumers
unfolding erase
finish_request id s = record s { consumers = erase id s.consumers }

unfoldable pub mark : ℕ → (ℕ → Bool) → ℕ → Bool
mark p m q = if p == q then true else m q

-- removeConsumer while it holds m_consumers_mtx: `none` is a wait.
unfoldable pub take_out : (id : Uuid) → Consumers → Option (ℕ × Consumers)
unfolding erase mark
take_out id s = elim (s.consumers id) [
  | none ↦ none
  | some p ↦ some (p, record s { consumers = erase id s.consumers; taken_out = mark p s.taken_out })
]

-- The call of stop(), after the mutex is released.
unfoldable pub stop_at : ℕ → Consumers → Consumers
unfolding stop set_handle
stop_at p s = elim (s.handles p) [
  | none ↦ s
  | some h ↦ record s { handles = set_handle p (stop h) s.handles }
]

-- removeConsumer as a whole, when nothing else happens at the provider in between.
unfoldable pub remove_consumer : (id : Uuid) → Consumers → Option Consumers
unfolding take_out stop_at
remove_consumer id s = elim (take_out id s) [ none ↦ none | some (p, t) ↦ some (stop_at p t) ]

-- What happens at a provider: requests of events, each with an id of its own, their ends, when they
-- should stop, and the two parts of removals: a handle that was taken out is stopped later.
pub data Step : Consumers → Consumers → Type 0 where
  request :
      {s : Consumers} (id : Uuid) (consumer_ctx target_info_index : ℕ) (consumer_name : String)
      (count : ℕ)
      → ((p : ℕ) (h : Handle) → s.handles p ≡ some h → h.consumer_id ≢ id)
      → Step s (request_events id consumer_ctx target_info_index consumer_name count s)
  finish :
      {s : Consumers} (p : ℕ) (h : Handle)
      → s.handles p ≡ some h
      → h.should_stop ≡ true
      → Step s (finish_request h.consumer_id s)
  takes_out : {s t : Consumers} (id : Uuid) (p : ℕ) → take_out id s ≡ some (p, t) → Step s t
  stops : {s : Consumers} (p : ℕ) → s.taken_out p ≡ true → Step s (stop_at p s)

pub data Reach : Consumers → Type 0 where
  start : Reach no_consumers
  more : {s t : Consumers} → Reach s → Step s t → Reach t
