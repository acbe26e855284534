-- ===== src/Service/Tests.antt =====
-- The properties of a service with two targets.
use mofka.Prelude.{
  Outcome, if◌then◌else◌, returns, ℕ, String, ◌≡◌, refl, some, List, [], ◌∷◌, ◌++◌, arith, str_eq,
}
use mofka.Provider.{named}
use mofka.Service.{Service, TopicHandle, FromMetadata, create_topic, open_topic}
use mofka.Service.Opened.{outcome, open_topic-create_topic}

abbrev from_numbers : FromMetadata ℕ ℕ ℕ (List ℕ) ℕ
from_numbers = record {
  validator_from = λ m. returns m;
  selector_from = λ m. returns (m ∷ []);
  serializer_from = λ m. returns m;
  set_targets = λ s targets. s ++ targets;
}

abbrev zeros : ℕ × (ℕ × ℕ)
zeros = (0, (0, 0))

abbrev report : ℕ → ℕ × (ℕ × ℕ)
report t = (t, (t, t))

abbrev hash : String → ℕ
hash name = if str_eq name "a" then 6 else 9

abbrev service : Service ℕ ℕ
service = record { mofka_targets = 100 ∷ 200 ∷ []; providers = λ i. ("b", 5) ∷ [] }

open_topic-create_topic_example :
    (handle : Outcome (TopicHandle ℕ (List ℕ) ℕ)) × (s' : Service ℕ ℕ) × (create_topic hash
        from_numbers zeros report
        (λ type. returns (some 7))
        (named "memory")
        "a"
        service
      ≡ some (handle, s'))
    × (outcome hash from_numbers zeros report (open_topic hash from_numbers zeros report "a" s')
        ≡ some handle)
unfolding mofka.Provider.find_topic
open_topic-create_topic_example =
    open_topic-create_topic hash from_numbers zeros report (λ type. returns (some 7)) "memory" "a"
      "a" service 7 (omega arith) refl refl
