-- ===== src/Producer/Batch/Settled.antt =====
-- What the promises of a batch are set to, however the sending ends.
use mofka.Prelude.{
  Outcome, get_elem?, returns, throws, ℕ, zero, suc, ◌+◌, String, ◌≡◌, refl, ap, ◌∙◌, some, List,
  [], ◌∷◌, map, arith,
}
use mofka.Producer.Batch.{
  send_batch, set_values, set_exceptions, ProducerBatch, set_promises_value, set_promises_exception,
}

set_values-promises : {P : Type 0} (ps : List P) (id : ℕ) → map (λ r. r.0) (set_values ps id) ≡ ps
unfolding set_values
set_values-promises [] id = refl
set_values-promises (p ∷ ps) id = ap (λ r. p ∷ r) (set_values-promises ps (id + 1))

set_exceptions-promises :
    {P : Type 0} (moved : String → String) (ps : List P) (ex : String)
    → map (λ r. r.0) (set_exceptions moved ps ex) ≡ ps
unfolding set_exceptions
set_exceptions-promises moved [] ex = refl
set_exceptions-promises moved (p ∷ ps) ex =
    ap (λ r. p ∷ r) (set_exceptions-promises moved ps (moved ex))

-- However the sending ends, each promise of the batch is settled once, in the order of the pushes.
pub send_batch-promises :
    {P : Type 0} (moved : String → String) (registered : Outcome (Unit {0}))
    (reply : Outcome (Outcome ℕ)) (b : ProducerBatch P)
    → map (λ r. r.0) (send_batch moved registered reply b) ≡ b.promises
unfolding send_batch set_promises_value set_promises_exception
send_batch-promises moved (throws what) reply b = set_exceptions-promises moved b.promises _
send_batch-promises moved (returns _) (throws what) b = set_exceptions-promises moved b.promises _
send_batch-promises moved (returns _) (returns (throws e)) b =
    set_exceptions-promises moved b.promises _
send_batch-promises moved (returns _) (returns (returns id)) b = set_values-promises b.promises id

set_values-get :
    {P : Type 0} (ps : List P) (id i : ℕ) (p : P)
    → get_elem? ps i ≡ some p
    → get_elem? (set_values ps id) i ≡ some (p, returns (id + i))
unfolding set_values
set_values-get [] id i p h = cc
set_values-get (q ∷ ps) id zero p h = ground arith
set_values-get (q ∷ ps) id (suc i) p h =
    let e : id + 1 + i ≡ id + suc i = omega arith in
    set_values-get ps (id + 1) i p h ∙ ap (λ n. some (p, returns n)) e

-- When the target answers with its first event id, the event at index `i` of the batch gets the
-- id `i` after it.
pub send_batch-ids :
    {P : Type 0} (moved : String → String) (first_id : ℕ) (b : ProducerBatch P) (i : ℕ) (p : P)
    → get_elem? b.promises i ≡ some p
    → get_elem? (send_batch moved (returns tt) (returns (returns first_id)) b) i
      ≡ some (p, returns (first_id + i))
unfolding send_batch set_promises_value
send_batch-ids moved first_id b i p h = set_values-get b.promises first_id i p h

-- When the target answers with an error, only the first event of the batch gets its text: the
-- second gets what is left of a text that was moved from.
pub send_batch_moved :
    {P : Type 0} (moved : String → String) (error : String) (b : ProducerBatch P) (p q : P)
    (ps : List P)
    → b.promises ≡ p ∷ q ∷ ps
    → (rest : List (P × Outcome ℕ)) × (send_batch moved (returns tt) (returns (throws error)) b
        ≡ (p, throws error) ∷ (q, throws (moved error)) ∷ rest)
unfolding send_batch set_promises_exception set_exceptions
send_batch_moved moved error b p q ps e =
    (set_exceptions moved ps (moved (moved error)), rw (e, set_exceptions))
