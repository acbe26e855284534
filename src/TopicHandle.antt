-- ===== src/TopicHandle.antt =====
-- TopicHandle::producer and consumer of include/mofka/TopicHandle.hpp with makeProducer and makeConsumer
-- of src/TopicHandle.cpp, and the search among their options of include/mofka/ArgsUtil.hpp. What an
-- argument is of, or converts to, follows from the constructors and conversion operators that
-- BatchSize, ThreadPool and std::string_view declare. Handles are not moved from.
pub mod Options
pub mod Order
pub mod Tests
use mofka.Uuid.{Uuid}
use mofka.Producer.Queue.{adaptive_size}
use mofka.Consumer.Lifetime.{ConsumerImpl, start}
use mofka.Producer.Push.{Ordering, ProducerImpl, strict, initial}
use mofka.ThreadPool.{ThreadPool, create}
use mofka.Prelude.{ℕ, String, Option, none, some, List, [], ◌∷◌}

-- What the compiler tells of an argument where an E is expected: its value if it has the type E up to
-- references, an E constructed from it, and an E& bound to it.
pub record Expected (A E : Type 0) : Type 0 where
  pub same : A → Option E
  pub construct : A → Option E
  pub refer : A → Option E

module _ {A E : Type 0} where
  -- GetArgOrDefault. `construct` is for the type that is expected here: in its recursive calls, `exp` is
  -- an lvalue, and what is expected is an E&.
  pub get_arg_or_default : Expected A E → (construct : A → Option E) → (exp : E) → List A → E
  get_arg_or_default e construct exp [] = exp
  get_arg_or_default e construct exp (arg ∷ args) = elim (e.same arg) [
    | some v ↦ v
    | none ↦ elim (construct arg) [ some v ↦ v | none ↦ get_arg_or_default e e.refer exp args ]
  ]

  -- GetArg: `none` is the static_assert.
  pub get_arg : Expected A E → List A → Option E
  get_arg e [] = none
  get_arg e (arg ∷ args) = elim (e.same arg) [
    | some v ↦ some v
    | none ↦ elim (e.construct arg) [ some v ↦ some v | none ↦ get_arg e args ]
  ]

-- The arguments, by their types; a text is an array of characters.
pub data Argument (F D S : Type 0) : Type 0 where
  of_string_view of_text : String → Argument F D S
  of_batch_size of_thread_count : ℕ → Argument F D S
  of_thread_pool : ThreadPool F → Argument F D S
  of_ordering : Ordering → Argument F D S
  of_data_broker : D → Argument F D S
  of_data_selector : S → Argument F D S
  of_targets : List ℕ → Argument F D S

-- What makeProducer gives to ProducerImpl; `impl` are its counters.
pub record Producer (F T : Type 0) : Type 0 where
  pub name : String
  pub batch_size : ℕ
  pub thread_pool : ThreadPool F
  pub impl : ProducerImpl T

-- What makeConsumer gives to ConsumerImpl; `impl` is what it sends of itself.
pub record Consumer (F D S : Type 0) : Type 0 where
  pub batch_size : ℕ
  pub thread_pool : ThreadPool F
  pub data_broker : D
  pub data_selector : S
  pub impl : ConsumerImpl

module _ {F T : Type 0} where
  -- TopicHandle::makeProducer.
  pub make_producer :
      (name : String) (batch_size : ℕ) (thread_pool : ThreadPool F) (ordering : Ordering)
      → Producer F T
  make_producer name batch_size thread_pool ordering = record {
    name = name;
    batch_size = batch_size;
    thread_pool = thread_pool;
    impl = initial ordering;
  }

module _ {F D S : Type 0} where
  -- No value.
  pub never : {E : Type 0} → Argument F D S → Option E
  never arg = none

  pub a_string_view : Argument F D S → Option String
  a_string_view (of_string_view s) = some s
  a_string_view _ = none

  pub from_text : Argument F D S → Option String
  from_text (of_text s) = some s
  from_text _ = none

  pub a_batch_size : Argument F D S → Option ℕ
  a_batch_size (of_batch_size n) = some n
  a_batch_size _ = none

  -- BatchSize has a constructor from size_t, and a ThreadPool converts to a bool.
  pub from_thread_pool : Argument F D S → Option ℕ
  from_thread_pool (of_thread_pool pool) = some 1
  from_thread_pool _ = none

  pub a_thread_pool : Argument F D S → Option (ThreadPool F)
  a_thread_pool (of_thread_pool pool) = some pool
  a_thread_pool _ = none

  -- ThreadPool has a constructor from ThreadCount.
  pub from_thread_count : Argument F D S → Option (ThreadPool F)
  from_thread_count (of_thread_count n) = some (create n)
  from_thread_count _ = none

  pub an_ordering : Argument F D S → Option Ordering
  an_ordering (of_ordering o) = some o
  an_ordering _ = none

  pub a_data_broker : Argument F D S → Option D
  a_data_broker (of_data_broker broker) = some broker
  a_data_broker _ = none

  pub a_data_selector : Argument F D S → Option S
  a_data_selector (of_data_selector selector) = some selector
  a_data_selector _ = none

  pub some_targets : Argument F D S → Option (List ℕ)
  some_targets (of_targets ts) = some ts
  some_targets _ = none

  abbrev pub name_option : Expected (Argument F D S) String
  name_option = record { same = a_string_view; construct = from_text; refer = never }

  abbrev pub batch_size_option : Expected (Argument F D S) ℕ
  batch_size_option = record { same = a_batch_size; construct = from_thread_pool; refer = never }

  abbrev pub thread_pool_option : Expected (Argument F D S) (ThreadPool F)
  thread_pool_option = record { same = a_thread_pool; construct = from_thread_count; refer = never }

  -- An option of a type to which nothing else converts.
  abbrev pub only : {E : Type 0} → (Argument F D S → Option E) → Expected (Argument F D S) E
  only same = record { same = same; construct = never; refer = never }

  pub option : {E : Type 0} → Expected (Argument F D S) E → E → List (Argument F D S) → E
  unfolding get_arg_or_default
  option e exp opts = get_arg_or_default e e.construct exp opts

  -- TopicHandle::producer; the default ordering is strict.
  pub producer : {T : Type 0} → List (Argument F D S) → Producer F T
  unfolding option make_producer
  producer opts =
      make_producer (option name_option "" opts) (option batch_size_option adaptive_size opts)
        (option thread_pool_option (create 1) opts) (option (only an_ordering) strict opts)

  -- TopicHandle::makeConsumer, by the address and the UUID of the ConsumerImpl: its constructor starts,
  -- which submits the ULTs for the targets.
  pub make_consumer :
      (consumer_ctx : ℕ) (uuid : Uuid) (name : String) (batch_size : ℕ) (thread_pool : ThreadPool F)
      (data_broker : D) (data_selector : S) (targets : List ℕ)
      → Consumer F D S × List (ℕ × ℕ)
  make_consumer consumer_ctx uuid name batch_size thread_pool data_broker data_selector targets =
      let impl : ConsumerImpl = record {
        consumer_ctx = consumer_ctx;
        uuid = uuid;
        name = name;
        targets = targets;
      } in
      (
        record {
          batch_size = batch_size;
          thread_pool = thread_pool;
          data_broker = data_broker;
          data_selector = data_selector;
          impl = impl;
        },
        start impl,
      )

  -- TopicHandle::consumer, with the default data broker and data selector and the targets of the
  -- service.
  pub consumer :
      (consumer_ctx : ℕ) (uuid : Uuid) (no_broker : D) (no_selector : S) (targets : List ℕ)
      (name : String)
      → List (Argument F D S)
      → Consumer F D S × List (ℕ × ℕ)
  unfolding option make_consumer
  consumer consumer_ctx uuid no_broker no_selector targets name opts =
      make_consumer consumer_ctx uuid name (option batch_size_option adaptive_size opts)
        (option thread_pool_option (create 1) opts) (option (only a_data_broker) no_broker opts)
        (option (only a_data_selector) no_selector opts) (option (only some_targets) targets opts)
