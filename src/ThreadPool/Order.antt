-- ===== src/ThreadPool/Order.antt =====
-- The order in which a thread pool starts work that is pushed while it runs.
use mofka.ThreadPool.Mixed.{
  AllZero, Mixed, func_of, Follows, All-suffix, ult_of, push_positive, push_zero, start_zero,
  start_positive, start_none,
}
use mofka.ThreadPool.{
  create, run, Work, ThreadPool, push_work, start_next, prioritized_start, Action, pushes, starts,
  prioritized_work,
}
use mofka.Prelude.{
  All, ◌==◌, if◌then◌else◌, Bool-cases, ℕ, ◌≤◌, ◌≡◌, refl, sym, ap, ◌∙◌, inl, inr, Option, some,
  List, [], ◌∷◌, ◌++◌, map, append-nil, append_assoc, arith,
}
use mofka.PrioPool.{priority, Queue, pool_pop}

module _ {F : Type 0} where
  -- The priorities of the work that is pushed after `ws` rise, but for 0, and no ULT has the address of
  -- one with a priority before it.
  abbrev pub Rising : List (Work F) → List (Action F) → Type 0
  Rising ws [] = Unit {0}
  Rising ws (starts ∷ actions) = Rising ws actions
  Rising ws (pushes w ∷ actions) =
      All (λ v. Follows w v) ws × Rising (if w.priority == 0 then ws else ws ++ (w ∷ [])) actions

  -- What a run of actions starts, and what it leaves in the pool.
  Ran : List (Action F) → List (Work F) → ThreadPool F → Type 0
  Ran actions qs t =
      (zs : Queue) × (rest : List (Work F)) × (map func_of (qs ++ prioritized_work actions)
        ≡ (run actions t).0 ++ map func_of rest)
      × Mixed zs rest (run actions t).1

  run_starts :
      (actions : List (Action F)) (t : ThreadPool F)
      → run (starts ∷ actions) t ≡ (
        prioritized_start (pool_pop t.pool) t ++ (run actions (start_next t).1).0,
        (run actions (start_next t).1).1,
      )
  unfolding run
  run_starts actions t = refl

  Ran-push :
      (w : Work F) (actions : List (Action F)) (qs qs' : List (Work F)) (t : ThreadPool F)
      → qs ++ prioritized_work (pushes w ∷ actions) ≡ qs' ++ prioritized_work actions
      → Ran actions qs' (push_work w t)
      → Ran (pushes w ∷ actions) qs t
  unfolding Ran run
  Ran-push w actions qs qs' t e (zs, rest, same, m) = (zs, rest, ap (map func_of) e ∙ same, m)

  Ran-start :
      (actions : List (Action F)) (qs qs' : List (Work F)) (t : ThreadPool F)
      (first : List (Option F))
      → map func_of (qs ++ prioritized_work actions)
        ≡ first ++ map func_of (qs' ++ prioritized_work actions)
      → prioritized_start (pool_pop t.pool) t ≡ first
      → Ran actions qs' (start_next t).1
      → Ran (starts ∷ actions) qs t
  unfolding Ran run
  Ran-start actions qs qs' t first e f (zs, rest, same, m) =
      let later = (run actions (start_next t).1).0 in
      (
        zs,
        rest,
        e
            ∙ (ap (λ r. first ++ r) same
                ∙ (sym (append_assoc first later (map func_of rest))
                    ∙ ap (λ r. (r ++ later) ++ map func_of rest) (sym f))),
        m,
      )

  run_lem :
      (actions : List (Action F)) (before : List (Work F)) (zs : Queue) (qs : List (Work F))
      (t : ThreadPool F)
      → Rising (before ++ qs) actions
      → Mixed zs qs t
      → Ran actions qs t
  unfolding Ran run
  run_lem [] before zs qs t h m = (zs, qs, ap (map func_of) (append-nil qs), m)
  run_lem (pushes w ∷ actions) before zs qs t h m =
      let behind = All-suffix (λ v. Follows w v) before qs h.0 in
      elim (Bool-cases (w.priority == 0)) [
        | inl zero_priority ↦
            let (zs', m') = push_zero w zs qs t (ground arith) behind m in
            let rest : Rising (before ++ qs) actions = rw zero_priority at h.1 in
            Ran-push w actions qs qs t (rw zero_priority refl)
              (run_lem actions before zs' qs (push_work w t) rest m')
        | inr prior ↦
            let e : (before ++ qs) ++ (w ∷ []) ≡ before ++ (qs ++ (w ∷ [])) =
              append_assoc before qs (w ∷ []) in
            let rest : Rising ((before ++ qs) ++ (w ∷ [])) actions = rw prior at h.1 in
            Ran-push w actions qs (qs ++ (w ∷ [])) t
              (rw prior (sym (append_assoc qs (w ∷ []) (prioritized_work actions))))
              (run_lem actions before zs (qs ++ (w ∷ [])) (push_work w t) (rw e at rest)
                (push_positive w zs qs t (ground arith) behind m))
      ]
  run_lem (starts ∷ actions) before (z ∷ zs) qs t h m =
      let (nothing, m') = start_zero z zs qs t m in
      Ran-start actions qs qs t [] refl nothing (run_lem actions before zs qs _ h m')
  run_lem (starts ∷ actions) before [] [] t h m =
      let (nothing, m') = start_none t m in
      Ran-start actions [] [] t [] refl nothing (run_lem actions before [] [] _ h m')
  run_lem (starts ∷ actions) before [] (q ∷ qs) t h m =
      let (started_first, m') = start_positive q qs t m in
      let e : before ++ (q ∷ qs) ≡ (before ++ (q ∷ [])) ++ qs =
        sym (append_assoc before (q ∷ []) qs) in
      Ran-start actions (q ∷ qs) qs t (some q.func ∷ []) refl started_first
        (run_lem actions (before ++ (q ∷ [])) [] qs _ (rw e at h) m')

  -- However work is pushed to a new pool with execution streams of its own and started by them, work of
  -- priority 0 included, the work of other priorities is started in the order in which it was pushed,
  -- each once, if its priorities rise: it is the work that was started, and then the work that the pool
  -- still has, in this order, behind that of priority 0. No ULT has the address of one with a priority
  -- before it.
  pub run-create :
      (count : ℕ) (actions : List (Action F))
      → 1 ≤ count
      → Rising [] actions
      → (zs : Queue) × (rest : List (Work F)) × (map func_of (prioritized_work actions)
          ≡ (run actions (create count)).0 ++ map func_of rest)
        × ((run actions (create count)).1.pool ≡ zs ++ map ult_of rest)
        × All (λ u. priority u ≡ 0) zs
  unfolding create Ran AllZero
  run-create count actions h o =
      let new : Mixed [] [] (create count) = record {
        is_prioritized = ground arith;
        queued = refl;
        zeros = tt;
        positive = tt;
        kept = tt;
      } in
      let (zs, rest, same, m) = run_lem actions [] [] [] (create count) o new in
      (zs, rest, same, m.queued, m.zeros)
