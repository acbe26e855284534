-- ===== src/Provider/Consumers/Lookups.antt =====
-- What is found in the memory of the handles and in m_consumers after each change.
use mofka.Prelude.{
  Bool-cases, ℕ, ◌≡◌, refl, sym, ap, ◌∙◌, ◌≢◌, ◌⊎◌, inl, inr, Bool, true, Option, none, some, arith,
}
use mofka.Uuid.{Uuid, same, same-eq, same_refl}
use mofka.Provider.Consumers.{
  Handle, Consumers, emplace, erase, stop, set_handle, remove_consumer, mark, take_out, stop_at,
}

-- A handle that is read after one was set is that one, or another as before.
pub set_handle-cases :
    (p q : ℕ) (h k : Handle) (m : ℕ → Option Handle)
    → set_handle p h m q ≡ some k
    → ((p ≡ q) × (h ≡ k)) ⊎ ((p ≢ q) × (m q ≡ some k))
unfolding set_handle
set_handle-cases p q h k m e = ground arith

pub set_handle_same : (p : ℕ) (h : Handle) (m : ℕ → Option Handle) → set_handle p h m p ≡ some h
unfolding set_handle
set_handle_same p h m = ground arith

pub set_handle_other :
    (p q : ℕ) (h : Handle) (m : ℕ → Option Handle) → p ≢ q → set_handle p h m q ≡ m q
unfolding set_handle
set_handle_other p q h m n = ground arith

-- The same of the entries of m_consumers.
pub emplace_same :
    (id : Uuid) (p : ℕ) (m : Uuid → Option ℕ) → m id ≡ none → emplace id p m id ≡ some p
unfolding emplace
emplace_same id p m e = rw (e, emplace) (rw (same_refl id) refl)

pub emplace_kept :
    (id k : Uuid) (p q : ℕ) (m : Uuid → Option ℕ) → m k ≡ some q → emplace id p m k ≡ some q
unfolding emplace
emplace_kept id k p q m e = rw (e, emplace) refl

pub emplace-cases :
    (id k : Uuid) (p q : ℕ) (m : Uuid → Option ℕ)
    → emplace id p m k ≡ some q
    → ((id ≡ k) × (p ≡ q)) ⊎ (m k ≡ some q)
unfolding emplace
emplace-cases id k p q m e = ground (arith, same-eq id k)

pub erase_other : (id k : Uuid) (m : Uuid → Option ℕ) → id ≢ k → erase id m k ≡ m k
unfolding erase
erase_other id k m n = ground (arith, same-eq id k)

pub erase_same : (id : Uuid) (m : Uuid → Option ℕ) → erase id m id ≡ none
unfolding erase
erase_same id m = rw (same_refl id) refl

pub erase-cases :
    (id k : Uuid) (q : ℕ) (m : Uuid → Option ℕ) → erase id m k ≡ some q → (id ≢ k) × (m k ≡ some q)
unfolding erase
erase-cases id k q m e = elim (Bool-cases (same id k)) [
  | inl h ↦ ground arith
  | inr h ↦ (λ eq. ground (arith, same_refl k, ap (λ w. same w k) eq), ground arith)
]

pub mark-cases : (p q : ℕ) (m : ℕ → Bool) → mark p m q ≡ true → (p ≡ q) ⊎ (m q ≡ true)
unfolding mark
mark-cases p q m e = ground arith

pub mark_same : (p : ℕ) (m : ℕ → Bool) → mark p m p ≡ true
unfolding mark
mark_same p m = ground arith

pub mark_kept : (p q : ℕ) (m : ℕ → Bool) → m q ≡ true → mark p m q ≡ true
unfolding mark
mark_kept p q m e = ground arith

pub mark_other : (p q : ℕ) (m : ℕ → Bool) → p ≢ q → mark p m q ≡ m q
unfolding mark
mark_other p q m n = ground arith

-- The state after the handle at `p` was taken out under `id`, and after it was stopped too.
abbrev pub taken_from : Uuid → ℕ → Consumers → Consumers
taken_from id p s = record s { consumers = erase id s.consumers; taken_out = mark p s.taken_out }

abbrev pub stopped_at : ℕ → Handle → Consumers → Consumers
stopped_at p h s = record s { handles = set_handle p (stop h) s.handles }

abbrev pub without : Uuid → ℕ → Handle → Consumers → Consumers
without id p h s = stopped_at p h (taken_from id p s)

pub take_out_found :
    (s : Consumers) (id : Uuid) (p : ℕ)
    → s.consumers id ≡ some p
    → take_out id s ≡ some (p, taken_from id p s)
unfolding take_out
take_out_found s id p found = rw (found, take_out) refl

pub stop_at_found :
    (s : Consumers) (p : ℕ) (h : Handle) → s.handles p ≡ some h → stop_at p s ≡ stopped_at p h s
unfolding stop_at
stop_at_found s p h at = rw (at, stop_at) refl

pub stop_at_gone : (s : Consumers) (p : ℕ) → s.handles p ≡ none → stop_at p s ≡ s
unfolding stop_at
stop_at_gone s p at = rw (at, stop_at) refl

pub remove_found :
    (s : Consumers) (id : Uuid) (p : ℕ) (h : Handle)
    → s.consumers id ≡ some p
    → s.handles p ≡ some h
    → remove_consumer id s ≡ some (without id p h s)
unfolding remove_consumer
remove_found s id p h found at =
    rw (take_out_found s id p found, remove_consumer)
      (ap some (stop_at_found (taken_from id p s) p h at))

pub take_out_waits : (s : Consumers) (id : Uuid) → s.consumers id ≡ none → take_out id s ≡ none
unfolding take_out
take_out_waits s id absent = rw (absent, take_out) refl

pub remove_waits : (s : Consumers) (id : Uuid) → s.consumers id ≡ none → remove_consumer id s ≡ none
unfolding remove_consumer
remove_waits s id absent = rw (take_out_waits s id absent, remove_consumer) refl

-- A handle that is read after one was stopped was there before, with the same id.
pub stopped-cases :
    (p q : ℕ) (h k : Handle) (m : ℕ → Option Handle)
    → m p ≡ some h
    → set_handle p (stop h) m q ≡ some k
    → (l : Handle) × (m q ≡ some l) × (l.consumer_id ≡ k.consumer_id)
unfolding stop
stopped-cases p q h k m at e = elim (set_handle-cases p q (stop h) k m e) [
  | inl (here, eq) ↦ (h, ap m (sym here) ∙ at, ap Handle.consumer_id eq)
  | inr (other, old) ↦ (k, old, refl)
]
