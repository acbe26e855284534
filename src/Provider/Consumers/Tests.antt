-- ===== src/Provider/Consumers/Tests.antt =====
-- The properties of the consumers of a provider with one or two of them.
use mofka.Prelude.{◌==◌, if◌then◌else◌, ℕ, ◌≡◌, refl, ◌↔◌, false, none, some, arith}
use mofka.Uuid.{cleared}
use mofka.Provider.Consumers.{
  Handle, Consumers, no_consumers, request_events, remove_consumer, Reach, start, more, request,
  new_handle, stop,
}
use mofka.Provider.Consumers.Removal.{
  running-consumers, remove_consumer-stops, remove_consumer_second,
}

abbrev first_handle : Handle
first_handle = new_handle cleared 7 0 "c" 0

abbrev one_consumer : Consumers
one_consumer = request_events cleared 7 0 "c" 0 no_consumers

one_consumer-Reach : Reach one_consumer
one_consumer-Reach = more start (request cleared 7 0 "c" 0 (λ p h e. cc))

running-consumers_example :
    (one_consumer.consumers cleared ≡ some 0)
    ↔ ((false ≡ false) × (one_consumer.taken_out 0 ≡ false))
unfolding request_events
running-consumers_example = running-consumers one_consumer 0 first_handle one_consumer-Reach refl

remove_consumer-stops_example :
    (t : Consumers) × (remove_consumer cleared one_consumer ≡ some t)
    × ((q : ℕ)
        → t.handles q ≡ (if 0 == q then some (stop first_handle) else one_consumer.handles q))
    × (remove_consumer cleared t ≡ none)
unfolding request_events
remove_consumer-stops_example =
    remove_consumer-stops one_consumer 0 first_handle one_consumer-Reach refl refl refl

remove_consumer_second_example :
    (t : Consumers) × (remove_consumer cleared (request_events cleared 7 1 "c" 0 one_consumer)
      ≡ some t)
    × (t.handles 0 ≡ some (stop first_handle))
    × (t.handles 1 ≡ some (new_handle cleared 7 1 "c" 0))
    × (remove_consumer cleared t ≡ none)
unfolding request_events mofka.Uuid.same
remove_consumer_second_example =
    remove_consumer_second one_consumer cleared 0 first_handle 7 1 "c" 0 refl refl
      (λ e. omega (arith, e))
