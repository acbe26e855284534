-- ===== src/ThreadPool/Mixed.antt =====
-- A thread pool with work of priority 0 in front of work with rising priorities, step by step.
use mofka.PrioPool.{Queue, Ult, priority, less, emplace, pool_push, pool_pop}
use mofka.Prelude.{
  All, All-append, ◌==◌, if◌then◌else◌, Bool-cases, ℕ, ◌<◌, ◌≡◌, refl, sym, ap, ◌∙◌, subst, ◌≢◌,
  ◌⊎◌, inl, inr, true, false, Option, some, List, [], ◌∷◌, ◌++◌, map, arith,
}
use mofka.ThreadPool.{start_next, push_work, Work, ThreadPool, started, prioritized_start}

pub All-suffix {ℓ} : {A : Type 0} (R : A → Type ℓ) (xs ys : List A) → All R (xs ++ ys) → All R ys
All-suffix R [] ys a = a
All-suffix R (x ∷ xs) ys a = All-suffix R xs ys a.1

unfoldable pub AllZero : Queue → Type 0
AllZero zs = All (λ u. priority u ≡ 0) zs

module _ {F : Type 0} where
  unfoldable pub ult_of : Work F → Ult
  ult_of w = record { args = some w.priority; thread = w.thread }

  abbrev pub func_of : Work F → Option F
  func_of w = some w.func

  -- What a work has over another that was pushed before it.
  abbrev pub Follows : Work F → Work F → Type 0
  Follows w v = (v.thread ≢ w.thread) × ((w.priority ≡ 0) ⊎ (v.priority < w.priority))

  -- A pool with `zs` of priority 0 and then, in this order, the work `qs`.
  pub record Mixed (zs : Queue) (qs : List (Work F)) (t : ThreadPool F) : Type 0 where
    pub is_prioritized : t.prioritized ≡ true
    pub queued : t.pool ≡ zs ++ map ult_of qs
    pub zeros : AllZero zs
    pub positive : All (λ w. 0 < w.priority) qs
    pub kept : All (λ w. t.args w.thread ≡ some w.func) qs

  emplace_last :
      (w : Work F) (zs : Queue) (qs : List (Work F))
      → 0 < w.priority
      → AllZero zs
      → All (λ v. v.priority < w.priority) qs
      → emplace (ult_of w) (zs ++ map ult_of qs) ≡ zs ++ map ult_of (qs ++ (w ∷ []))
  unfolding emplace less ult_of AllZero
  emplace_last w [] [] h z b = refl
  emplace_last w [] (q ∷ qs) h z b = ground (arith, emplace_last w [] qs h tt b.1)
  emplace_last w (u ∷ zs) qs h z b = ground (arith, emplace_last w zs qs h z.1 b)

  emplace_zero :
      (w : Work F) (zs : Queue) (qs : List (Work F))
      → w.priority ≡ 0
      → AllZero zs
      → All (λ v. 0 < v.priority) qs
      → (zs' : Queue) × (emplace (ult_of w) (zs ++ map ult_of qs) ≡ zs' ++ map ult_of qs)
        × AllZero zs'
  unfolding emplace less ult_of AllZero
  emplace_zero w [] [] h z b = (ult_of w ∷ [], refl, (h, tt))
  emplace_zero w [] (q ∷ qs) h z b = (ult_of w ∷ [], ground arith, (h, tt))
  emplace_zero w (u ∷ zs) qs h z b = elim (Bool-cases (less (ult_of w) u)) [
    | inl below ↦
        let (zs', e, z') = emplace_zero w zs qs h z.1 b in
        (u ∷ zs', rw (below, emplace) (ap (λ q. u ∷ q) e), (z.0, z'))
    | inr above ↦ (ult_of w ∷ u ∷ zs, rw (above, emplace) refl, (h, z))
  ]

  kept-push :
      (w : Work F) (qs : List (Work F)) (args : ℕ → Option F)
      → All (λ v. Follows w v) qs
      → All (λ v. args v.thread ≡ some v.func) qs
      → All (λ v. (if v.thread == w.thread then some w.func else args v.thread) ≡ some v.func) qs
  kept-push w [] args b k = tt
  kept-push w (q ∷ qs) args b k =
      let other : (q.thread == w.thread) ≡ false = ground (arith, b.0.0) in
      (rw other k.0, kept-push w qs args b.1 k.1)

  below_new :
      (w : Work F) (qs : List (Work F))
      → 0 < w.priority
      → All (λ v. Follows w v) qs
      → All (λ v. v.priority < w.priority) qs
  below_new w [] h b = tt
  below_new w (q ∷ qs) h b = (ground (arith, b.0.1), below_new w qs h b.1)

  pub push_positive :
      (w : Work F) (zs : Queue) (qs : List (Work F)) (t : ThreadPool F)
      → 0 < w.priority
      → All (λ v. Follows w v) qs
      → Mixed zs qs t
      → Mixed zs (qs ++ (w ∷ [])) (push_work w t)
  unfolding push_work pool_push ult_of
  push_positive w zs qs t h b l =
      let same : (w.thread == w.thread) ≡ true = ground arith in
      rw (l.is_prioritized) (record {
        is_prioritized = refl;
        queued =
            ap (emplace (ult_of w)) l.queued ∙ emplace_last w zs qs h l.zeros (below_new w qs h b);
        zeros = l.zeros;
        positive = All-append (λ v. 0 < v.priority) qs (w ∷ []) l.positive (h, tt);
        kept =
            All-append
              (λ v. (if v.thread == w.thread then some w.func else t.args v.thread) ≡ some v.func)
              qs (w ∷ []) (kept-push w qs t.args b l.kept) (rw same refl, tt);
      })

  pub push_zero :
      (w : Work F) (zs : Queue) (qs : List (Work F)) (t : ThreadPool F)
      → w.priority ≡ 0
      → All (λ v. Follows w v) qs
      → Mixed zs qs t
      → (zs' : Queue) × Mixed zs' qs (push_work w t)
  unfolding push_work pool_push ult_of
  push_zero w zs qs t h b l =
      let (zs', e, z') = emplace_zero w zs qs h l.zeros l.positive in
      (
        zs',
        rw (l.is_prioritized) (record {
          is_prioritized = refl;
          queued = ap (emplace (ult_of w)) l.queued ∙ e;
          zeros = z';
          positive = l.positive;
          kept = kept-push w qs t.args b l.kept;
        }),
      )

  -- A start of work with priority 0, of the first with another priority, or of none.
  pub start_zero :
      (z : Ult) (zs : Queue) (qs : List (Work F)) (t : ThreadPool F)
      → Mixed (z ∷ zs) qs t
      → (prioritized_start (pool_pop t.pool) t ≡ []) × Mixed zs qs (start_next t).1
  unfolding start_next started pool_pop prioritized_start AllZero
  start_zero z zs qs t l =
      let none_of_these : (priority z == 0) ≡ true = ground (arith, l.zeros.0) in
      (
        ap (λ p. prioritized_start (pool_pop p) t) l.queued ∙ rw none_of_these refl,
        subst (λ p. Mixed zs qs (started (pool_pop p) t).1) (sym l.queued)
            (record {
              is_prioritized = l.is_prioritized;
              queued = refl;
              zeros = l.zeros.1;
              positive = l.positive;
              kept = l.kept;
            }),
      )

  pub start_positive :
      (q : Work F) (qs : List (Work F)) (t : ThreadPool F)
      → Mixed [] (q ∷ qs) t
      → (prioritized_start (pool_pop t.pool) t ≡ some q.func ∷ []) × Mixed [] qs (start_next t).1
  unfolding start_next started pool_pop prioritized_start AllZero ult_of
  start_positive q qs t l =
      let prior : (q.priority == 0) ≡ false = ground (arith, l.positive.0) in
      (
        ap (λ p. prioritized_start (pool_pop p) t) l.queued ∙ rw prior (ap (λ f. f ∷ []) l.kept.0),
        subst (λ p. Mixed [] qs (started (pool_pop p) t).1) (sym l.queued)
            (record {
              is_prioritized = l.is_prioritized;
              queued = refl;
              zeros = tt;
              positive = l.positive.1;
              kept = l.kept.1;
            }),
      )

  pub start_none :
      (t : ThreadPool F)
      → Mixed [] [] t
      → (prioritized_start (pool_pop t.pool) t ≡ []) × Mixed [] [] (start_next t).1
  unfolding start_next started pool_pop prioritized_start AllZero
  start_none t l = (
    ap (λ p. prioritized_start (pool_pop p) t) l.queued,
    subst (λ p. Mixed [] [] (started (pool_pop p) t).1) (sym l.queued)
        (record {
          is_prioritized = l.is_prioritized;
          queued = refl;
          zeros = tt;
          positive = tt;
          kept = tt;
        }),
  )
