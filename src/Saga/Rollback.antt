-- ===== src/Saga/Rollback.antt =====
-- The compensations and the terminal steps: what each undoes and records, alone and in the order in
-- which the state machine runs them.
use aws_serverless_patterns.Prelude.{String, false, true, ◌≡◌, refl, Option, some, none, ◌==◌}
use aws_serverless_patterns.Py.Value.{
  Value, str, obj, Fields, field, end, get, or_else, is_falsy, float_free, float_free_fields,
}
use aws_serverless_patterns.Py.Host.{Host, dict_get}
use aws_serverless_patterns.Py.Exec.{World, Exec, ok}
use aws_serverless_patterns.Py.Ends.{Ends, Ends-bind, Ends-lift, Ends-pure}
use aws_serverless_patterns.Dynamo.{Dynamo}
use aws_serverless_patterns.Saga.Errors.{SagaError}
use aws_serverless_patterns.Saga.Handlers.{completed_detail, complete_saga}
use aws_serverless_patterns.Saga.Compensation.{
  undo, release_inventory, refund_payment, cancel_order, mark_failed,
}
use aws_serverless_patterns.Saga.View.{Saga, Shows, noted, in_status}
use aws_serverless_patterns.Saga.Gate.{Addressed}
use aws_serverless_patterns.Saga.Forward.{addressed-Ends}
use aws_serverless_patterns.Saga.Store.Refines.{record_step-Ends, set_status-Ends}

pub data Backward : Type 0 where
  release refund : Backward

-- The step that a compensation records, the result that it reads, the field of the id in it, and
-- the status that it returns.
abbrev pub undo_name : Backward → String
undo_name release = "release_inventory"
undo_name refund = "refund_payment"

abbrev pub result_name : Backward → String
result_name release = "reservation"
result_name refund = "payment"

abbrev pub undone_id : Backward → String
undone_id release = "reservation_id"
undone_id refund = "payment_id"

abbrev pub undone_status : Backward → String
undone_status release = "RELEASED"
undone_status refund = "REFUNDED"

module _ {T : Type 0} (d : Dynamo T) (host : Host) where
  unfoldable pub backward : Backward → Fields → Exec SagaError T Fields
  backward release = release_inventory d host
  backward refund = refund_payment d host

-- What the forward step left in the execution's results.
pub record Made (b : Backward) (event : Fields) (id : String) : Type 0 where
  pub block : Fields
  pub read : completed_detail event (result_name b) ≡ ok block
  pub holds : get (undone_id b) block ≡ some (str id)
  pub real : (id == "") ≡ false

pub record Missing (b : Backward) (event : Fields) : Type 0 where
  pub block : Fields
  pub read : completed_detail event (result_name b) ≡ ok block
  pub lacks : is_falsy (get (undone_id b) block) ≡ true

module _ {T : Type 0} (d : Dynamo T) (host : Host) {k : String} (named : (k == "") ≡ false) where
  undo_made-Ends :
      (step name status id : String) (w : World T) {saga : Saga}
      → (id == "") ≡ false
      → Shows d k saga w.cloud
      → Ends
          (Shows d k)
          (undo d host (str k) step name status (some (str id)))
          w
          (field "status" (str status) (field name (str id) end))
          (noted step "DONE" (field name (str id) end) saga)
  unfolding float_free float_free_fields
  undo_made-Ends step name status id w real h =
      rw real
        (Ends-bind _ _ w (record_step-Ends d host k named w _ _ _ refl h) λ h'. Ends-pure _ _ h')

  undo_missing-Ends :
      (step name status : String) (id : Option Value) (w : World T) {saga : Saga}
      → is_falsy id ≡ true
      → Shows d k saga w.cloud
      → Ends
          (Shows d k)
          (undo d host (str k) step name status id)
          w
          (field "status" (str "SKIPPED") end)
          (noted step "SKIPPED" end saga)
  unfolding float_free float_free_fields
  undo_missing-Ends step name status none w falsy h =
      Ends-bind _ _ w (record_step-Ends d host k named w _ _ _ refl h) λ h'. Ends-pure _ _ h'
  undo_missing-Ends step name status (some v) w falsy h =
      rw falsy
        (Ends-bind _ _ w (record_step-Ends d host k named w _ _ _ refl h) λ h'. Ends-pure _ _ h')

module _ {T : Type 0} (d : Dynamo T) (host : Host) {k : String} (event : Fields)
    (a : Addressed event k) (w : World T) {saga : Saga} (h : Shows d k saga w.cloud) where
  -- Release_inventory and refund_payment, for an order in the table and an event whose results
  -- hold an id of the forward step, return RELEASED or REFUNDED with that very id, record it as
  -- DONE and set the status to COMPENSATING.
  pub backward-Ends :
      (b : Backward) {id : String}
      → Made b event id
      → Ends
          (Shows d k)
          (backward d host b event)
          w
          (field "status" (str (undone_status b)) (field (undone_id b) (str id) end))
          (noted
            (undo_name b)
            "DONE"
            (field (undone_id b) (str id) end)
            (in_status "COMPENSATING" saga))
  unfolding backward release_inventory refund_payment
  backward-Ends release made = addressed-Ends d host event a w _ (
      Ends-bind _ _ w (set_status-Ends d host k a.named w _ h) λ h1.
        Ends-bind _ _ _ (Ends-lift _ _ made.read h1)
          λ h2. rw made.holds (undo_made-Ends d host a.named _ _ _ _ _ made.real h2))
  backward-Ends refund made = addressed-Ends d host event a w _ (
      Ends-bind _ _ w (set_status-Ends d host k a.named w _ h) λ h1.
        Ends-bind _ _ _ (Ends-lift _ _ made.read h1)
          λ h2. rw made.holds (undo_made-Ends d host a.named _ _ _ _ _ made.real h2))

  -- Release_inventory and refund_payment, for an order in the table and an event whose results can
  -- be read, being missing, empty or objects, and hold no id of the forward step, raise nothing,
  -- return SKIPPED, record SKIPPED and set the status to COMPENSATING.
  pub backward-Missing-Ends :
      (b : Backward)
      → Missing b event
      → Ends
          (Shows d k)
          (backward d host b event)
          w
          (field "status" (str "SKIPPED") end)
          (noted (undo_name b) "SKIPPED" end (in_status "COMPENSATING" saga))
  unfolding backward release_inventory refund_payment
  backward-Missing-Ends release gone = addressed-Ends d host event a w _ (
      Ends-bind _ _ w (set_status-Ends d host k a.named w _ h) λ h1.
        Ends-bind _ _ _ (Ends-lift _ _ gone.read h1) λ h2.
          undo_missing-Ends d host a.named _ "reservation_id" "RELEASED"
            (get (undone_id release) gone.block) _ gone.lacks h2)
  backward-Missing-Ends refund gone = addressed-Ends d host event a w _ (
      Ends-bind _ _ w (set_status-Ends d host k a.named w _ h) λ h1.
        Ends-bind _ _ _ (Ends-lift _ _ gone.read h1) λ h2.
          undo_missing-Ends d host a.named _ "payment_id" "REFUNDED"
            (get (undone_id refund) gone.block) _ gone.lacks h2)

  pub cancel_order-Ends :
      Ends
        (Shows d k)
        (cancel_order d host event)
        w
        (field "status" (str "CANCELLED") (field "order_id" (str k) end))
        (noted "cancel_order" "DONE" end (in_status "COMPENSATING" saga))
  unfolding cancel_order float_free float_free_fields
  cancel_order-Ends = addressed-Ends d host event a w _ (
      Ends-bind _ _ w (set_status-Ends d host k a.named w _ h) λ h1.
        Ends-bind _ _ _ (record_step-Ends d host k a.named _ _ _ _ refl h1) λ h2. Ends-pure _ _ h2)

  pub mark_failed-Ends :
      {cause : Option Value}
      → dict_get {E = SagaError} (or_else (get "error" event) (obj end)) "Cause" ≡ ok cause
      → Ends
          (Shows d k)
          (mark_failed d host event)
          w
          (field "status" (str "FAILED") end)
          (in_status "FAILED" saga)
  unfolding mark_failed
  mark_failed-Ends said = addressed-Ends d host event a w _ (
      Ends-bind _ _ w (set_status-Ends d host k a.named w _ h)
        λ h1. Ends-bind _ _ _ (Ends-lift _ _ said h1) λ h2. Ends-pure _ _ h2)

  pub complete_saga-Ends :
      Ends
        (Shows d k)
        (complete_saga d host event)
        w
        (field "status" (str "COMPLETED") end)
        (in_status "COMPLETED" saga)
  unfolding complete_saga
  complete_saga-Ends =
      addressed-Ends d host event a w _
        (Ends-bind _ _ w (set_status-Ends d host k a.named w _ h) λ h1. Ends-pure _ _ h1)
