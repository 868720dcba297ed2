-- ===== src/Saga/View.antt =====
-- The abstract saga: what a reader of the item sees, without the times of writing, and what each
-- method of the store does to it.
use aws_serverless_patterns.Prelude.{String, Option, none, some, ◌≡◌, ◌==◌, if◌then◌else◌}
use aws_serverless_patterns.Prelude.Int.{ℤ}
use aws_serverless_patterns.Py.Value.{Value, int, str, obj, Fields, get}
use aws_serverless_patterns.Dynamo.{Dynamo, Item}

pub record Outcome : Type 0 where
  pub status : String
  pub detail : Fields

pub record Saga : Type 0 where
  pub status : String
  pub outcome : String → Option Outcome
  pub attempts : String → Option Value

abbrev pub noted : String → String → Fields → Saga → Saga
noted step status detail saga = record saga {
  outcome =
      λ s. if step == s then some (record { status = status; detail = detail }) else saga.outcome s;
}

abbrev pub in_status : String → Saga → Saga
in_status status saga = record saga { status = status }

abbrev pub attempted : String → ℤ → Saga → Saga
attempted step n saga = record saga {
  attempts = λ s. if step == s then some (int n) else saga.attempts s;
}

abbrev pub started : Saga
started = record { status = "STARTED"; outcome = λ s. none; attempts = λ s. none }

abbrev pub outcome_fields : Option Value → Option Value → Option Outcome
outcome_fields (some (str status)) (some (obj detail)) =
    some (record { status = status; detail = detail })
outcome_fields v d = none

abbrev pub outcome_of : Option Value → Option Outcome
outcome_of (some (obj entry)) = outcome_fields (get "status" entry) (get "detail" entry)
outcome_of v = none

-- The item of `k` shows the saga.
pub record Shows {T : Type 0} (d : Dynamo T) (k : String) (saga : Saga) (t : T) : Type 0 where
  pub item : Item
  pub steps : Fields
  pub counters : Fields
  pub found : d.item t k ≡ some item
  pub status_is : item "status" ≡ some (str saga.status)
  pub steps_are : item "step_status" ≡ some (obj steps)
  pub counters_are : item "attempts" ≡ some (obj counters)
  pub outcomes : (s : String) → outcome_of (get s steps) ≡ saga.outcome s
  pub attempts : (s : String) → get s counters ≡ saga.attempts s
