-- ===== src/Future/Tests.antt =====
-- The futures of a batch of two events.
use mofka.Future.{States, Future}
use mofka.Prelude.{Outcome, ℕ, none, some, [], ◌∷◌}
use mofka.Producer.Batch.{ProducerBatch}

abbrev keep_first : Outcome ℕ → Outcome ℕ → Outcome ℕ
keep_first old new = old

abbrev two_waiting : States ℕ
two_waiting p = some none

abbrev two_events : ProducerBatch ℕ
two_events = record {
  meta_sizes = 1 ∷ 1 ∷ [];
  meta_buffer = 5 ∷ 6 ∷ [];
  data_sizes = 0 ∷ 0 ∷ [];
  data_segments = [];
  total_data_size = 0;
  promises = 3 ∷ 8 ∷ [];
}
