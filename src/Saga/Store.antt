-- ===== src/Saga/Store.antt =====
-- store.py: one item per saga, keyed by `order_id`.
pub mod Refines
use aws_serverless_patterns.Prelude.{
  ℕ, ◌+◌, String, Option, none, some, [], ◌∷◌, ltb, if◌then◌else◌, suc,
}
use aws_serverless_patterns.Prelude.Int.{ℤ, pos}
use aws_serverless_patterns.Py.Value.{
  Number, Value, int, decimal, str, obj, Fields, end, field, get, set,
}
use aws_serverless_patterns.Py.Host.{Host}
use aws_serverless_patterns.Py.Exec.{
  Result, ok, err, Raised, key_error, Exec, pure, lift, read_clock, ◌>>=◌, ◌>>◌,
}
use aws_serverless_patterns.Dynamo.{
  Dynamo, Item, Update, set_attribute, attribute, member, literal, plus_or, always,
}
use aws_serverless_patterns.Dynamo.Client.{get_item, put_item, update_item}
use aws_serverless_patterns.Saga.Errors.{SagaError}

abbrev pub status_started : String
status_started = "STARTED"

abbrev pub status_completed : String
status_completed = "COMPLETED"

abbrev pub status_failed : String
status_failed = "FAILED"

abbrev pub status_compensating : String
status_compensating = "COMPENSATING"

abbrev pub time_value : ℕ → Value
time_value n = int (pos n)

-- The item that `start` writes; `expires_at` only with a positive time to live.
unfoldable pub new_item : Value → String → Number → String → ℕ → ℕ → Option ℕ → Fields
new_item order_id customer_id amount currency created updated expires =
    let fields = field "order_id" order_id (
      field "customer_id" (str customer_id) (
        field "amount" (decimal amount) (
          field "currency" (str currency) (
            field "status" (str status_started) (
              field "step_status" (obj end) (
                field "attempts" (obj end) (
                  field "created_at" (time_value created)
                    (field "updated_at" (time_value updated) end)))))))) in
    elim expires [ none ↦ fields | some t ↦ set "expires_at" (time_value t) fields ]

-- `resp["Attributes"]["attempts"][step]`, an integer that the update has just written
abbrev attempts_member : Option Value → Result (Raised SagaError) ℤ
attempts_member (some (int n)) = ok n
attempts_member v = err key_error

abbrev attempts_map : Option Value → String → Result (Raised SagaError) ℤ
attempts_map (some (obj fs)) step = attempts_member (get step fs)
attempts_map v step = err key_error

abbrev pub step_entry : String → Fields → ℕ → Value
step_entry status detail at =
    obj (field "status" (str status) (field "detail" (obj detail) (field "at" (time_value at) end)))

abbrev pub stepped : Host → ℕ → String → String → Fields → Fields → Item → Item
stepped host clock step status detail steps item =
    set_attribute "updated_at" (time_value (host.time (suc clock))) (
      set_attribute "step_status"
        (obj (set step (step_entry status detail (host.time clock)) steps)) item)

abbrev pub step_update : String → String → Fields → ℕ → ℕ → Update
step_update step status detail at updated = record {
  sets =
      (
        member "step_status" step,
        literal (
            obj (
              field "status" (str status)
                (field "detail" (obj detail) (field "at" (time_value at) end)))),
      )
      ∷ (attribute "updated_at", literal (time_value updated))
      ∷ [];
  condition = always;
}

abbrev pub status_update : String → ℕ → Update
status_update status updated = record {
  sets =
      (attribute "status", literal (str status))
      ∷ (attribute "updated_at", literal (time_value updated))
      ∷ [];
  condition = always;
}

abbrev pub attempt_update : String → ℕ → Update
attempt_update step updated = record {
  sets =
      (member "attempts" step, plus_or (member "attempts" step) (pos 0) (pos 1))
      ∷ (attribute "updated_at", literal (time_value updated))
      ∷ [];
  condition = always;
}

module _ {T : Type 0} (d : Dynamo T) (host : Host) where
  abbrev pub now : Exec SagaError T ℕ
  now = read_clock host.time

  -- `if ttl_seconds and ttl_seconds > 0: … _now() + ttl_seconds`
  abbrev pub expiry : ℕ → Exec SagaError T (Option ℕ)
  expiry ttl_seconds =
      if ltb 0 ttl_seconds then (do base ← now; pure (some (base + ttl_seconds))) else pure none

  unfoldable pub start : Value → String → Number → String → ℕ → Exec SagaError T (Unit {0})
  start order_id customer_id amount currency ttl_seconds = do
    created ← now
    updated ← now
    expires ← expiry ttl_seconds
    put_item d order_id (new_item order_id customer_id amount currency created updated expires)

  -- An absent detail is the empty dict.
  unfoldable pub record_step : Value → String → String → Fields → Exec SagaError T (Unit {0})
  record_step order_id step status detail = do
    at ← now
    updated ← now
    update_item d "order_id" order_id (step_update step status detail at updated)
    pure tt

  unfoldable pub set_status : Value → String → Exec SagaError T (Unit {0})
  set_status order_id status = do
    updated ← now
    update_item d "order_id" order_id (status_update status updated)
    pure tt

  unfoldable pub increment_attempt : Value → String → Exec SagaError T ℤ
  increment_attempt order_id step = do
    updated ← now
    item ← update_item d "order_id" order_id (attempt_update step updated)
    lift (attempts_map (item "attempts") step)

  unfoldable pub get_record : Value → Exec SagaError T (Option Item)
  get_record order_id = get_item d order_id
