-- ===== src/TopicHandle/Order.antt =====
-- What the order of the options means for a producer and a consumer.
use mofka.Producer.Push.{strict}
use mofka.ThreadPool.{create, ThreadPool}
use mofka.Producer.Queue.{adaptive_size}
use mofka.Uuid.{Uuid}
use mofka.TopicHandle.Options.{occurrences, behind-Perm, behind_other, first_or_behind}
use mofka.Prelude.{ℕ, ◌≤◌, String, ◌≡◌, refl, none, List, ◌∷◌, ◌++◌}
use mathlib.Core.List.{Permᴰ}
use mofka.TopicHandle.{
  Expected, Argument, of_thread_count, never, a_string_view, a_batch_size, a_thread_pool,
  an_ordering, a_data_broker, a_data_selector, some_targets, name_option, batch_size_option,
  thread_pool_option, only, option, producer, consumer, get_arg_or_default, of_thread_pool,
  make_producer, from_thread_pool, make_consumer,
}

module _ {F D S : Type 0} where
  option-Perm :
      {E : Type 0} (e : Expected (Argument F D S) E) (exp : E) (opt : Argument F D S)
      (xs ys : List (Argument F D S))
      → ((a : Argument F D S) → e.refer a ≡ none)
      → Permᴰ xs ys
      → occurrences e xs ≤ 1
      → option e exp (opt ∷ xs) ≡ option e exp (opt ∷ ys)
  unfolding option
  option-Perm e exp opt xs ys no_references p once =
      first_or_behind e no_references exp opt xs ys (behind-Perm e no_references exp xs ys p once)

  option_other :
      {E : Type 0} (e : Expected (Argument F D S) E) (exp : E) (opt other : Argument F D S)
      (xs ys : List (Argument F D S))
      → ((a : Argument F D S) → e.refer a ≡ none)
      → e.same other ≡ none
      → option e exp (opt ∷ (xs ++ (other ∷ ys))) ≡ option e exp (opt ∷ (xs ++ ys))
  unfolding option
  option_other e exp opt other xs ys no_references h =
      first_or_behind e no_references exp opt (xs ++ (other ∷ ys)) (xs ++ ys)
        (behind_other e no_references exp other xs ys h)

  -- No two of the options have the same type.
  pub record IsDistinct (opts : List (Argument F D S)) : Type 0 where
    pub one_name : occurrences name_option opts ≤ 1
    pub one_batch_size : occurrences batch_size_option opts ≤ 1
    pub one_thread_pool : occurrences thread_pool_option opts ≤ 1
    pub one_ordering : occurrences (only an_ordering) opts ≤ 1
    pub one_data_broker : occurrences (only a_data_broker) opts ≤ 1
    pub one_data_selector : occurrences (only a_data_selector) opts ≤ 1
    pub one_targets : occurrences (only some_targets) opts ≤ 1

  module _ {T : Type 0} (ctx : ℕ) (uuid : Uuid) (broker : D) (selector : S) (targets : List ℕ)
      (name : String) where
    -- The options behind the first may be given in any order, if no two of them have the same type: the
    -- producer that is made is the same, and so are the consumer and the ULTs that its start submits. Which option is the first may matter.
    pub producer-Perm :
        (opt : Argument F D S) (xs ys : List (Argument F D S))
        → Permᴰ xs ys
        → IsDistinct xs
        → (producer {T = T} (opt ∷ xs) ≡ producer (opt ∷ ys))
          × (consumer ctx uuid broker selector targets name (opt ∷ xs)
              ≡ consumer ctx uuid broker selector targets name (opt ∷ ys))
    unfolding producer consumer never
    producer-Perm opt xs ys p d =
        let size =
          option-Perm batch_size_option adaptive_size opt xs ys (λ a. refl) p d.one_batch_size in
        let pool =
          option-Perm thread_pool_option (create 1) opt xs ys (λ a. refl) p d.one_thread_pool in
        (
          rw
              (
                option-Perm name_option "" opt xs ys (λ a. refl) p d.one_name,
                size,
                pool,
                option-Perm (only an_ordering) strict opt xs ys (λ a. refl) p d.one_ordering,
              )
              refl,
          rw
              (
                size,
                pool,
                option-Perm (only a_data_broker) broker opt xs ys (λ a. refl) p d.one_data_broker,
                option-Perm (only a_data_selector) selector opt xs ys (λ a. refl) p
                    d.one_data_selector,
                option-Perm (only some_targets) targets opt xs ys (λ a. refl) p d.one_targets,
              )
              refl,
        )

    -- A number of threads that is not the first option is ignored: the producer, and the consumer with
    -- the ULTs that its start submits, are those that are made without it. A thread pool that is
    -- the first option is taken for a batch size of 1, and a batch size behind it is ignored.
    pub producer_ignored :
        (n : ℕ) (opt : Argument F D S) (xs ys : List (Argument F D S)) (pool : ThreadPool F)
        → (producer {T = T} (opt ∷ (xs ++ (of_thread_count n ∷ ys))) ≡ producer (opt ∷ (xs ++ ys)))
          × (consumer ctx uuid broker selector targets name (opt ∷ (xs ++ (of_thread_count n ∷ ys)))
              ≡ consumer ctx uuid broker selector targets name (opt ∷ (xs ++ ys)))
          × ((producer {T = T} (of_thread_pool pool ∷ xs)).batch_size ≡ 1)
          × ((consumer ctx uuid broker selector targets name
                (of_thread_pool pool ∷ xs)).0.batch_size
              ≡ 1)
    unfolding producer consumer make_producer make_consumer option get_arg_or_default
        from_thread_pool never a_string_view a_batch_size a_thread_pool an_ordering a_data_broker
        a_data_selector some_targets
    producer_ignored n opt xs ys pool =
        let size =
          option_other batch_size_option adaptive_size opt (of_thread_count n) xs ys (λ a. refl)
            refl in
        let same_pool =
          option_other thread_pool_option (create 1) opt (of_thread_count n) xs ys (λ a. refl)
            refl in
        (
          rw
              (
                option_other name_option "" opt (of_thread_count n) xs ys (λ a. refl) refl,
                size,
                same_pool,
                option_other (only an_ordering) strict opt (of_thread_count n) xs ys (λ a. refl)
                    refl,
              )
              refl,
          rw
              (
                size,
                same_pool,
                option_other (only a_data_broker) broker opt (of_thread_count n) xs ys (λ a. refl)
                    refl,
                option_other (only a_data_selector) selector opt (of_thread_count n) xs ys
                    (λ a. refl) refl,
                option_other (only some_targets) targets opt (of_thread_count n) xs ys (λ a. refl)
                    refl,
              )
              refl,
          refl,
          refl,
        )
