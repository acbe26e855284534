-- ===== src/Provider/Consumers/Removal.antt =====
-- The removal of a consumer.
use mathlib.Core.Option.{some-injective}
use mofka.Prelude.{
  ◌==◌, if◌then◌else◌, ℕ, String, ◌≡◌, refl, sym, ap, ◌∙◌, ◌≢◌, ◌↔◌, false, none, some,
}
use mofka.Uuid.{Uuid}
use mofka.Provider.Consumers.{
  Handle, Consumers, stop, set_handle, new_handle, request_events, remove_consumer, Reach,
}
use mofka.Provider.Consumers.Lookups.{
  without, set_handle_same, set_handle_other, emplace_kept, erase_same, remove_found, remove_waits,
}
use mofka.Provider.Consumers.Registered.{Reach-IsRegistered}

-- At a provider whose requests of events have ids of their own, whatever requests, ends of requests and
-- parts of removals came before, m_consumers has a handle under its id exactly as long as the handle is
-- not told to stop and no removal has taken it out.
pub running-consumers :
    (s : Consumers) (p : ℕ) (h : Handle)
    → Reach s
    → s.handles p ≡ some h
    → (s.consumers h.consumer_id ≡ some p) ↔ ((h.should_stop ≡ false) × (s.taken_out p ≡ false))
running-consumers s p h r at =
    let inv = Reach-IsRegistered s r in
    (
      λ found.
          let (k, at', eq, running, kept) = inv.is_fed h.consumer_id p found in
          let both : some h ≡ some k = sym at ∙ at' in
          let one : h ≡ k = some-injective h k both in (ap Handle.should_stop one ∙ running, kept),
      λ (running, kept). inv.is_found p h at running kept,
    )

-- A removal of a consumer that is fed and that no other removal has taken out does not wait, stops its
-- handle and no other, and takes its entry out, so that a second removal under its id waits. Nothing
-- else happens while it runs, and the state of the provider is one that is reached by requests with
-- ids of their own, their ends and the parts of removals.
pub remove_consumer-stops :
    (s : Consumers) (p : ℕ) (h : Handle)
    → Reach s
    → s.handles p ≡ some h
    → h.should_stop ≡ false
    → s.taken_out p ≡ false
    → (t : Consumers) × (remove_consumer h.consumer_id s ≡ some t)
      × ((q : ℕ) → t.handles q ≡ (if p == q then some (stop h) else s.handles q))
      × (remove_consumer h.consumer_id t ≡ none)
unfolding set_handle
remove_consumer-stops s p h r at running kept =
    let found = (Reach-IsRegistered s r).is_found p h at running kept in
    (
      without h.consumer_id p h s,
      remove_found s h.consumer_id p h found at,
      λ q. refl,
      remove_waits (without h.consumer_id p h s) h.consumer_id
          (erase_same h.consumer_id s.consumers),
    )

-- A second request of events under the id of a consumer that is fed: a removal under the id stops the
-- first consumer, and the second is fed on, but a removal under its id waits. The first has another
-- handle than the second.
pub remove_consumer_second :
    (s : Consumers) (id : Uuid) (p : ℕ) (h : Handle) (consumer_ctx target_info_index : ℕ)
    (consumer_name : String) (count : ℕ)
    → s.consumers id ≡ some p
    → s.handles p ≡ some h
    → s.num_handles ≢ p
    → (t : Consumers) × (remove_consumer id
          (request_events id consumer_ctx target_info_index consumer_name count s)
        ≡ some t)
      × (t.handles p ≡ some (stop h))
      × (t.handles s.num_handles
          ≡ some (new_handle id consumer_ctx target_info_index consumer_name count))
      × (remove_consumer id t ≡ none)
unfolding request_events
remove_consumer_second s id p h ctx target name count found at apart =
    let handle = new_handle id ctx target name count in
    let s' = request_events id ctx target name count s in
    (
      without id p h s',
      remove_found s' id p h (emplace_kept id id s.num_handles p s.consumers found)
          (set_handle_other s.num_handles p handle s.handles apart ∙ at),
      set_handle_same p (stop h) s'.handles,
      set_handle_other p s.num_handles (stop h) s'.handles (λ e. apart (sym e))
          ∙ set_handle_same s.num_handles handle s.handles,
      remove_waits (without id p h s') id (erase_same id s'.consumers),
    )
