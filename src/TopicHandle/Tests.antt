-- ===== src/TopicHandle/Tests.antt =====
-- Runs of the makers of producers and consumers, and their properties at concrete options.
use mofka.TopicHandle.Order.{producer_ignored, producer-Perm}
use mofka.ThreadPool.{create}
use mofka.Producer.Push.{loose, initial}
use mofka.TopicHandle.Options.{occurrences}
use mofka.Uuid.{Uuid, cleared}
use mofka.Prelude.{ℕ, ◌≡◌, refl, some, List, [], ◌∷◌, arith}
use mofka.TopicHandle.{
  producer, get_arg, Argument, get_arg_or_default, of_text, of_batch_size, of_thread_count,
  of_thread_pool, of_ordering, make_producer, never, a_string_view, from_text, a_batch_size,
  from_thread_pool, a_thread_pool, from_thread_count, an_ordering, thread_pool_option, option,
  consumer, a_data_broker, a_data_selector, some_targets, Consumer,
}
use mathlib.Core.List.{Permᴰ}

abbrev Arg : Type 0
Arg = Argument ℕ ℕ ℕ

abbrev sized_loose : List Arg
sized_loose = of_batch_size 4 ∷ of_ordering loose ∷ []

abbrev loose_sized : List Arg
loose_sized = of_ordering loose ∷ of_batch_size 4 ∷ []

producer_runs :
    producer {T = ℕ} (of_text "p" ∷ sized_loose)
    ≡ record { name = "p"; batch_size = 4; thread_pool = create 1; impl = initial loose }
unfolding producer make_producer option get_arg_or_default a_string_view from_text a_batch_size
    from_thread_pool a_thread_pool from_thread_count an_ordering never
producer_runs = refl

-- Where the type stays the same in the recursive calls, a count of threads is found at any place.
get_arg_runs :
    get_arg (thread_pool_option {F = ℕ} {D = ℕ} {S = ℕ}) (of_text "p" ∷ of_thread_count 3 ∷ [])
    ≡ some (create 3)
unfolding get_arg a_thread_pool from_thread_count
get_arg_runs = refl

abbrev uuid : Uuid
uuid = cleared

producer-Perm_example :
    (producer {T = ℕ} (of_text "p" ∷ sized_loose) ≡ producer (of_text "p" ∷ loose_sized))
    × (consumer 7 uuid 0 0 (1 ∷ 2 ∷ []) "c" (of_text "p" ∷ sized_loose)
        ≡ consumer 7 uuid 0 0 (1 ∷ 2 ∷ []) "c" (of_text "p" ∷ loose_sized))
unfolding occurrences a_string_view a_batch_size a_thread_pool an_ordering a_data_broker
    a_data_selector some_targets
producer-Perm_example =
    producer-Perm 7 uuid 0 0 (1 ∷ 2 ∷ []) "c" (of_text "p") sized_loose loose_sized
      (Permᴰ.swap refl refl)
      (record {
        one_name = omega arith;
        one_batch_size = omega arith;
        one_thread_pool = omega arith;
        one_ordering = omega arith;
        one_data_broker = omega arith;
        one_data_selector = omega arith;
        one_targets = omega arith;
      })

abbrev counted : List Arg
counted = of_text "p" ∷ of_batch_size 4 ∷ of_thread_count 2 ∷ of_ordering loose ∷ []

abbrev not_counted : List Arg
not_counted = of_text "p" ∷ of_batch_size 4 ∷ of_ordering loose ∷ []

abbrev pool_first : List Arg
pool_first = of_thread_pool (create 2) ∷ of_batch_size 4 ∷ []

abbrev made_consumer : List Arg → Consumer ℕ ℕ ℕ × List (ℕ × ℕ)
made_consumer opts = consumer 7 uuid 0 0 (1 ∷ 2 ∷ []) "c" opts

producer_ignored_example :
    (producer {T = ℕ} counted ≡ producer not_counted)
    × (made_consumer counted ≡ made_consumer not_counted)
    × ((producer {T = ℕ} pool_first).batch_size ≡ 1)
    × ((made_consumer pool_first).0.batch_size ≡ 1)
producer_ignored_example =
    producer_ignored 7 uuid 0 0 (1 ∷ 2 ∷ []) "c" 2 (of_text "p") (of_batch_size 4 ∷ [])
      (of_ordering loose ∷ []) (create 2)
