-- ===== src/Saga/Machine/Undone.antt =====
-- The item of the order after a call of `create_order` that returned, and after a call of a
-- compensation or of a terminal step, however it ended.
use aws_serverless_patterns.Prelude.{String, refl, inl, inr, ℕ}
use aws_serverless_patterns.Py.Value.{
  obj, end, get, or_else, field, str, Number, float_free, float_free_fields,
}
use aws_serverless_patterns.Py.Host.{Host, dict_get}
use aws_serverless_patterns.Py.Exec.{World}
use aws_serverless_patterns.Py.Ends.{Result-cases, Fails-bind, Fails-first, Fails-lift}
use aws_serverless_patterns.Py.Triple.{Triple, Triple-bind, Triple-keep}
use aws_serverless_patterns.Py.Keeps.{Keeps-lift, Keeps-raise_if, Keeps-bind, Keeps-pure}
use aws_serverless_patterns.Dynamo.{Dynamo}
use aws_serverless_patterns.Saga.Errors.{SagaError}
use aws_serverless_patterns.Saga.View.{Saga, noted, in_status, started}
use aws_serverless_patterns.Saga.Gate.{Addressed}
use aws_serverless_patterns.Saga.Forward.{addressed-Fails}
use aws_serverless_patterns.Saga.Handlers.{Event, create_order, complete_saga}
use aws_serverless_patterns.Saga.Compensation.{cancel_order, mark_failed}
use aws_serverless_patterns.Saga.Rollback.{
  Backward, result_name, undone_id, undo_name, backward, backward-Ends, cancel_order-Ends,
  mark_failed-Ends, complete_saga-Ends,
}
use aws_serverless_patterns.Saga.Store.Refines.{set_status-Ends, start-Ends}
use aws_serverless_patterns.Saga.Machine.Data.{Holds, Holds-Made}
use aws_serverless_patterns.Saga.Machine.Shown.{
  Showing, maybe_inject_transient-Keeps, record_step-Keeps, IsStable,
}
use aws_serverless_patterns.Saga.Machine.Ids.{addressed-Triple}
use aws_serverless_patterns.Saga.Store.{start}

abbrev pub Anything : Saga → Type 0
Anything saga = Unit {0}

pub Anything-IsStable : {step : String} → IsStable Anything step
Anything-IsStable = record { noting = λ detail saga fact. tt; counting = λ s n saga fact. tt }

module _ {T : Type 0} (d : Dynamo T) (host : Host) {k : String} (event : Event)
    (a : Addressed event k) where
  started_item :
      (customer_id : String) (amount : Number) (currency : String) (ttl_seconds : ℕ)
      → Triple
          (λ _. Unit {0})
          (start d host (str k) customer_id amount currency ttl_seconds)
          (λ _. Showing d k Anything)
  started_item customer_id amount currency ttl_seconds = record {
    at = λ w _ _ _. record {
      saga = started;
      shows = (start-Ends d host k a.named customer_id currency amount ttl_seconds w).after;
      fact = tt;
    };
  }

  pub create_order-Showing :
      Triple (λ _. Unit {0}) (create_order d host event) (λ _. Showing d k Anything)
  unfolding create_order float_free float_free_fields
  create_order-Showing = addressed-Triple d host event a _ (
      Triple-bind _ _ (Triple-keep _ (Keeps-lift _)) λ amount.
        Triple-bind _ _ (Triple-keep _ (Keeps-raise_if _ _)) λ _.
          Triple-bind _ _ (Triple-keep _ (Keeps-raise_if _ _)) λ _.
            Triple-bind _ _ (started_item _ _ _ _) λ _. Triple-keep _ (
              Keeps-bind _ _
                (maybe_inject_transient-Keeps d host k a.named (λ s n saga fact. tt) _ event)
                λ _. Keeps-bind _ _ (Keeps-raise_if _ _) λ _. Keeps-bind _ _ (Keeps-lift _) λ n.
                  Keeps-bind _ _ (record_step-Keeps d host k a.named _ _ refl Anything-IsStable)
                    λ _. Keeps-pure _))

  module _ {F G : Saga → Type 0} (w : World T) (h : Showing d k F w.cloud) where
    pub backward-Showing :
        (b : Backward) {id : String}
        → Holds (result_name b) (undone_id b) event id
        → ((saga : Saga)
            → F saga
            → G (
                noted
                  (undo_name b)
                  "DONE"
                  (field (undone_id b) (str id) end)
                  (in_status "COMPENSATING" saga)))
        → Showing d k G (backward d host b event w).1.cloud
    backward-Showing b held turns = record {
      saga = _;
      shows = (backward-Ends d host event a w h.shows b (Holds-Made b event held)).after;
      fact = turns h.saga h.fact;
    }

    pub cancel_order-Showing :
        ((saga : Saga)
          → F saga
          → G (noted "cancel_order" "DONE" end (in_status "COMPENSATING" saga)))
        → Showing d k G (cancel_order d host event w).1.cloud
    cancel_order-Showing turns = record {
      saga = _;
      shows = (cancel_order-Ends d host event a w h.shows).after;
      fact = turns h.saga h.fact;
    }

    pub complete_saga-Showing :
        ((saga : Saga) → F saga → G (in_status "COMPLETED" saga))
        → Showing d k G (complete_saga d host event w).1.cloud
    complete_saga-Showing turns = record {
      saga = _;
      shows = (complete_saga-Ends d host event a w h.shows).after;
      fact = turns h.saga h.fact;
    }

    -- The status is set before the cause is read, which may raise.
    pub mark_failed-Showing :
        ((saga : Saga) → F saga → G (in_status "FAILED" saga))
        → Showing d k G (mark_failed d host event w).1.cloud
    unfolding mark_failed
    mark_failed-Showing turns = record {
      saga = in_status "FAILED" h.saga;
      shows =
          elim (Result-cases
            (dict_get {E = SagaError} (or_else (get "error" event) (obj end)) "Cause")) [
              | inl (e, refused) ↦
                  (addressed-Fails d host event a w _ (
                    Fails-bind _ _ w (set_status-Ends d host k a.named w _ h.shows)
                      λ h1. Fails-first _ _ _ (Fails-lift _ _ refused h1))).after
              | inr (cause, said) ↦ (mark_failed-Ends d host event a w h.shows said).after
            ];
      fact = turns h.saga h.fact;
    }
