-- ===== src/Provider/Consumers/Registered.antt =====
-- Which consumers of a provider can be removed.
use mathlib.Core.Option.{some-injective}
use mofka.Provider.Consumers.Lookups.{
  erase_other, set_handle_other, set_handle-cases, set_handle_same, emplace_same, emplace_kept,
  emplace-cases, erase-cases, stopped-cases, mark-cases, mark_same, mark_other, taken_from,
  stopped_at, take_out_found, stop_at_found, stop_at_gone, take_out_waits,
}
use mofka.Prelude.{
  Bool-cases, Option-cases, ℕ, ◌≤◌, ◌<◌, String, ◌≡◌, refl, sym, ap, ◌∙◌, subst, ◌≢◌, inl, inr,
  true, false, Option, none, some, arith, dec_lt,
}
use mofka.Uuid.{Uuid}
use mofka.Provider.Consumers.{
  Handle, Consumers, no_consumers, request_events, stop, new_handle, finish_request, Step, request,
  finish, Reach, start, more, mark, take_out, takes_out, stops,
}

-- The consumers that are fed are those that m_consumers has, each under its id, and those that a
-- removal has taken out and not stopped yet.
pub record IsRegistered (s : Consumers) : Type 0 where
  pub is_new : (p : ℕ) → s.num_handles ≤ p → s.handles p ≡ none
  pub is_unique :
      (p q : ℕ) (h k : Handle)
      → s.handles p ≡ some h
      → s.handles q ≡ some k
      → h.consumer_id ≡ k.consumer_id
      → p ≡ q
  pub is_found :
      (p : ℕ) (h : Handle)
      → s.handles p ≡ some h
      → h.should_stop ≡ false
      → s.taken_out p ≡ false
      → s.consumers h.consumer_id ≡ some p
  pub is_made : (p : ℕ) → s.taken_out p ≡ true → p < s.num_handles
  pub is_fed :
      (id : Uuid) (p : ℕ)
      → s.consumers id ≡ some p
      → (h : Handle) × (s.handles p ≡ some h)
        × (h.consumer_id ≡ id)
        × (h.should_stop ≡ false)
        × (s.taken_out p ≡ false)

start_lem : IsRegistered no_consumers
start_lem = record {
  is_new = λ p h. refl;
  is_unique = λ p q h k e f g. cc;
  is_found = λ p h e f g. cc;
  is_made = λ p e. cc;
  is_fed = λ id p e. cc;
}

-- No handle that is to be made was taken out.
not_made : (s : Consumers) → IsRegistered s → s.taken_out s.num_handles ≡ false
not_made s inv = elim (Bool-cases (s.taken_out s.num_handles)) [
  | inl out ↦ absurd (omega (arith, inv.is_made s.num_handles out))
  | inr kept ↦ kept
]

request_lem :
    (s : Consumers) (id : Uuid) (consumer_ctx target_info_index : ℕ) (consumer_name : String)
    (count : ℕ)
    → IsRegistered s
    → ((p : ℕ) (h : Handle) → s.handles p ≡ some h → h.consumer_id ≢ id)
    → IsRegistered (request_events id consumer_ctx target_info_index consumer_name count s)
unfolding request_events
request_lem s id ctx target name count inv fresh =
    let absent : s.consumers id ≡ none = elim (Option-cases (s.consumers id)) [
      | inl e ↦ e
      | inr (p, e) ↦
          let (h, at, eq, running, kept) = inv.is_fed id p e in elim (fresh p h at eq) [ ]
    ] in
    let handle = new_handle id ctx target name count in
    record {
      is_new = λ p h.
          set_handle_other s.num_handles p handle s.handles (λ e. omega (arith, e))
          ∙ inv.is_new p (omega arith);
      is_unique = λ p q h k e f g. elim (set_handle-cases s.num_handles p handle h s.handles e) [
        | inl (at, eq) ↦ elim (set_handle-cases s.num_handles q handle k s.handles f) [
          | inl (at', eq') ↦ sym at ∙ at'
          | inr (other, old) ↦ elim (fresh q k old (sym g ∙ sym (ap Handle.consumer_id eq))) [ ]
        ]
        | inr (other, old) ↦ elim (set_handle-cases s.num_handles q handle k s.handles f) [
          | inl (at', eq') ↦ elim (fresh p h old (g ∙ sym (ap Handle.consumer_id eq'))) [ ]
          | inr (other', old') ↦ inv.is_unique p q h k old old' g
        ]
      ];
      is_made = λ p e. omega (arith, inv.is_made p e);
      is_found = λ p h e f g. elim (set_handle-cases s.num_handles p handle h s.handles e) [
        | inl (at, eq) ↦ rw (← eq, ← at) (emplace_same id s.num_handles s.consumers absent)
        | inr (other, old) ↦
            emplace_kept id h.consumer_id s.num_handles p s.consumers (inv.is_found p h old f g)
      ];
      is_fed = λ k p e. elim (emplace-cases id k s.num_handles p s.consumers e) [
        | inl (eq, at) ↦ (
          handle,
          rw (← at) (set_handle_same s.num_handles handle s.handles),
          eq,
          refl,
          rw (← at) (not_made s inv),
        )
        | inr old ↦
            let (h, at, eq, running, kept) = inv.is_fed k p old in
            let apart : s.num_handles ≢ p = λ e. ground (arith, inv.is_new p (omega (arith, e))) in
            (h, set_handle_other s.num_handles p handle s.handles apart ∙ at, eq, running, kept)
      ];
    }

finish_lem :
    (s : Consumers) (p : ℕ) (h : Handle)
    → s.handles p ≡ some h
    → h.should_stop ≡ true
    → IsRegistered s
    → IsRegistered (finish_request h.consumer_id s)
unfolding finish_request
finish_lem s p h at stopped inv = record {
  is_new = inv.is_new;
  is_unique = inv.is_unique;
  is_made = inv.is_made;
  is_found = λ q k e f g.
      let apart : h.consumer_id ≢ k.consumer_id = λ same_id.
        let at_same : some h ≡ some k =
          sym at ∙ (ap s.handles (inv.is_unique p q h k at e same_id) ∙ e) in
        cc in
      erase_other h.consumer_id k.consumer_id s.consumers apart ∙ inv.is_found q k e f g;
  is_fed = λ k q e. inv.is_fed k q (erase-cases h.consumer_id k q s.consumers e).1;
}

-- What is taken out.
taken_lem :
    (s t : Consumers) (id : Uuid) (p : ℕ)
    → take_out id s ≡ some (p, t)
    → (s.consumers id ≡ some p) × (taken_from id p s ≡ t)
taken_lem s t id p e = elim (Option-cases (s.consumers id)) [
  | inl absent ↦
      let both : ◌≡◌ {A = Option (ℕ × Consumers)} none (some (p, t)) =
        sym (take_out_waits s id absent) ∙ e in
      cc
  | inr (q, found) ↦
      let both : some (q, taken_from id q s) ≡ some (p, t) =
        sym (take_out_found s id q found) ∙ e in
      let equal : (q, taken_from id q s) ≡ (p, t) =
        some-injective (q, taken_from id q s) (p, t) both in
      let at : q ≡ p = ap (λ r. r.0) equal in
      (found ∙ ap some at, ap (λ r. taken_from id r s) (sym at) ∙ ap (λ r. r.1) equal)
]

takes_out_lem :
    (s : Consumers) (id : Uuid) (p : ℕ)
    → s.consumers id ≡ some p
    → IsRegistered s
    → IsRegistered (taken_from id p s)
takes_out_lem s id p found inv =
    let (h, at, eq, running, kept) = inv.is_fed id p found in
    record {
      is_new = inv.is_new;
      is_unique = inv.is_unique;
      is_made = λ q e. elim (mark-cases p q s.taken_out e) [
        | inl here ↦ elim (dec_lt q s.num_handles) [
          | yes made ↦ made
          | no beyond ↦
              let both : none ≡ some h =
                sym (inv.is_new q (omega (arith, beyond))) ∙ (ap s.handles (sym here) ∙ at) in
              cc
        ]
        | inr before ↦ inv.is_made q before
      ];
      is_found = λ q k e f g.
          let other : p ≢ q = λ here.
            let both : true ≡ false =
              sym (mark_same p s.taken_out) ∙ (ap (mark p s.taken_out) here ∙ g) in
            cc in
          let apart : id ≢ k.consumer_id =
            λ same_id. other (inv.is_unique p q h k at e (eq ∙ same_id)) in
          erase_other id k.consumer_id s.consumers apart
          ∙ inv.is_found q k e f (sym (mark_other p q s.taken_out other) ∙ g);
      is_fed = λ k q e.
          let (apart, old) = erase-cases id k q s.consumers e in
          let (l, at', eq', running', kept') = inv.is_fed k q old in
          let other : p ≢ q = λ here.
            let both : some h ≡ some l = sym at ∙ (ap s.handles here ∙ at') in
            let one : h ≡ l = cc in apart (sym eq ∙ (ap Handle.consumer_id one ∙ eq')) in
          (l, at', eq', running', mark_other p q s.taken_out other ∙ kept');
    }

stops_lem :
    (s : Consumers) (p : ℕ) (h : Handle)
    → s.handles p ≡ some h
    → s.taken_out p ≡ true
    → IsRegistered s
    → IsRegistered (stopped_at p h s)
unfolding stop
stops_lem s p h at out inv = record {
  is_new = λ q n.
      let apart : p ≢ q = λ here.
        let both : none ≡ some h = sym (inv.is_new q n) ∙ (ap s.handles (sym here) ∙ at) in cc in
      set_handle_other p q (stop h) s.handles apart ∙ inv.is_new q n;
  is_unique = λ q r k l e f g.
      let (k', at_q, same_k) = stopped-cases p q h k s.handles at e in
      let (l', at_r, same_l) = stopped-cases p r h l s.handles at f in
      inv.is_unique q r k' l' at_q at_r (same_k ∙ (g ∙ sym same_l));
  is_made = inv.is_made;
  is_found = λ q k e f g. elim (set_handle-cases p q (stop h) k s.handles e) [
    | inl (here, stopped) ↦ let both : true ≡ false = ap Handle.should_stop stopped ∙ f in cc
    | inr (other, old) ↦ inv.is_found q k old f g
  ];
  is_fed = λ k q e.
      let (l, at', eq', running, kept) = inv.is_fed k q e in
      let other : p ≢ q =
        λ here. let both : true ≡ false = sym out ∙ (ap s.taken_out here ∙ kept) in cc in
      (l, set_handle_other p q (stop h) s.handles other ∙ at', eq', running, kept);
}

step_lem : {s t : Consumers} → Step s t → IsRegistered s → IsRegistered t
step_lem {s} (request id ctx target name count fresh) inv =
    request_lem s id ctx target name count inv fresh
step_lem {s} (finish p h at stopped) inv = finish_lem s p h at stopped inv
step_lem {s} {t} (takes_out id p e) inv =
    let (found, result) = taken_lem s t id p e in
    subst IsRegistered result (takes_out_lem s id p found inv)
step_lem {s} (stops p out) inv = elim (Option-cases (s.handles p)) [
  | inl gone ↦ subst IsRegistered (sym (stop_at_gone s p gone)) inv
  | inr (h, at) ↦ subst IsRegistered (sym (stop_at_found s p h at)) (stops_lem s p h at out inv)
]

pub Reach-IsRegistered : (s : Consumers) → Reach s → IsRegistered s
Reach-IsRegistered s start = start_lem
Reach-IsRegistered t (more {s} r step) = step_lem step (Reach-IsRegistered s r)
