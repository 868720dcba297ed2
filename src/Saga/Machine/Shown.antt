-- ===== src/Saga/Machine/Shown.antt =====
-- What the item of the order shows while the forward steps run, however they end.
use aws_serverless_patterns.Prelude.{
  String, Option, none, some, true, false, ◌≡◌, refl, ◌==◌, Option-cases, inl, inr, eq_refl, ◌∙◌,
}
use aws_serverless_patterns.Prelude.Int.{ℤ}
use aws_serverless_patterns.Py.Value.{
  Value, str, Fields, end, field, get, float_free, float_free_fields,
}
use aws_serverless_patterns.Py.Host.{Host, subscript}
use aws_serverless_patterns.Py.Exec.{World, Exec, lift, ◌>>=◌}
use aws_serverless_patterns.Py.Keeps.{
  Keeps, keeps_rules, Keeps-bind, Keeps-pure, Keeps-lift, Keeps-raise_if, Keeps-draw_id,
}
use aws_serverless_patterns.Dynamo.{Dynamo, next_count, add_to_refused}
use aws_serverless_patterns.Dynamo.Client.{update_item}
use aws_serverless_patterns.Saga.Errors.{SagaError}
use aws_serverless_patterns.Saga.View.{Saga, Shows, noted, attempted, in_status}
use aws_serverless_patterns.Saga.Gate.{Addressed}
use aws_serverless_patterns.Saga.Store.{record_step, set_status, increment_attempt}
use aws_serverless_patterns.Saga.Store.Refines.{
  record_step-Ends, set_status-Ends, increment_attempt-Ends,
}
use aws_serverless_patterns.Saga.Handlers.{
  Event, order_of, inject_transient, maybe_inject_transient, new_id, charge_payment,
  reserve_inventory, schedule_shipment,
}
use aws_serverless_patterns.Saga.Forward.{
  Forward, charge, reserve, ship, step_name, id_name, forward,
}

-- The item shows a saga with the fact.
pub record Showing {T : Type 0} (d : Dynamo T) (k : String) (F : Saga → Type 0) (t : T)
    : Type 0 where
  pub saga : Saga
  pub shows : Shows d k saga t
  pub fact : F saga

pub Showing-map :
    {T : Type 0} {d : Dynamo T} {k : String} {F G : Saga → Type 0} {t : T}
    → ((saga : Saga) → F saga → G saga)
    → Showing d k F t
    → Showing d k G t
Showing-map turns h = record { saga = h.saga; shows = h.shows; fact = turns h.saga h.fact }

-- Only the item of `k` counts.
pub Showing-same :
    {T : Type 0} {d : Dynamo T} {k : String} {F : Saga → Type 0} {t t' : T}
    → d.item t' k ≡ d.item t k
    → Showing d k F t
    → Showing d k F t'
Showing-same same h = record {
  saga = h.saga;
  shows = record {
    item = h.shows.item;
    steps = h.shows.steps;
    counters = h.shows.counters;
    found = same ∙ h.shows.found;
    status_is = h.shows.status_is;
    steps_are = h.shows.steps_are;
    counters_are = h.shows.counters_are;
    outcomes = h.shows.outcomes;
    attempts = h.shows.attempts;
  };
  fact = h.fact;
}

pub id_plain : (name id : String) → float_free_fields (field name (str id) end) ≡ true
unfolding float_free_fields
id_plain name id = refl

-- The fact outlives a record of the step, and any count of attempts.
pub record IsStable (F : Saga → Type 0) (step : String) : Type 0 where
  pub noting : (detail : Fields) (saga : Saga) → F saga → F (noted step "DONE" detail saga)
  pub counting : (s : String) (n : ℤ) (saga : Saga) → F saga → F (attempted s n saga)

module _ {T : Type 0} (d : Dynamo T) (host : Host) (k : String) (named : (k == "") ≡ false) where
  module _ {F G : Saga → Type 0} where
    pub record_step-Showing :
        (step status : String) (detail : Fields)
        → float_free_fields detail ≡ true
        → ((saga : Saga) → F saga → G (noted step status detail saga))
        → (w : World T) → Showing d k F w.cloud
        → Showing d k G (record_step d host (str k) step status detail w).1.cloud
    record_step-Showing step status detail plain turns w h = record {
      saga = noted step status detail h.saga;
      shows = (record_step-Ends d host k named w step status detail plain h.shows).after;
      fact = turns h.saga h.fact;
    }

    pub set_status-Showing :
        (status : String)
        → ((saga : Saga) → F saga → G (in_status status saga))
        → (w : World T) → Showing d k F w.cloud
        → Showing d k G (set_status d host (str k) status w).1.cloud
    set_status-Showing status turns w h = record {
      saga = in_status status h.saga;
      shows = (set_status-Ends d host k named w status h.shows).after;
      fact = turns h.saga h.fact;
    }

  module _ {F : Saga → Type 0}
      (counting : (s : String) (n : ℤ) (saga : Saga) → F saga → F (attempted s n saga)) where
    -- A counter that is no integer stays as it is: the update is refused.
    refused_count :
        (step : String) (w : World T) (h : Showing d k F w.cloud)
        → next_count (h.saga.attempts step) ≡ none
        → Showing d k F (increment_attempt d host (str k) step w).1.cloud
    unfolding increment_attempt update_item ◌>>=◌ float_free
    refused_count step w h stuck =
        let refused = add_to_refused (get step h.shows.counters) (rw h.shows.attempts stuck) in
        rw (d.update_result, named, h.shows.found, h.shows.counters_are, refused)
          (record {
            saga = h.saga;
            shows = record {
              item = h.shows.item;
              steps = h.shows.steps;
              counters = h.shows.counters;
              found =
                  rw (d.item-update, named, h.shows.found, h.shows.counters_are, refused, eq_refl);
              status_is = h.shows.status_is;
              steps_are = h.shows.steps_are;
              counters_are = h.shows.counters_are;
              outcomes = h.shows.outcomes;
              attempts = h.shows.attempts;
            };
            fact = h.fact;
          })

    pub increment_attempt-Keeps :
        (step : String) → Keeps (Showing d k F) (increment_attempt d host (str k) step)
    increment_attempt-Keeps step = record {
      at = λ w h. elim (Option-cases (next_count (h.saga.attempts step))) [
        | inl stuck ↦ refused_count step w h stuck
        | inr (n, next) ↦ record {
          saga = attempted step n h.saga;
          shows = (increment_attempt-Ends d host k named w step n next h.shows).after;
          fact = counting step n h.saga h.fact;
        }
      ];
    }

    inject_transient-Keeps :
        (step : String) (succeed_on : Option Value)
        → Keeps (Showing d k F) (inject_transient d host (str k) step succeed_on)
    inject_transient-Keeps step none = search keeps_rules
    inject_transient-Keeps step (some v) = search (keeps_rules, increment_attempt-Keeps) depth 8

    pub maybe_inject_transient-Keeps :
        (step : String) (event : Event)
        → Keeps (Showing d k F) (maybe_inject_transient d host (str k) step event)
    unfolding maybe_inject_transient
    maybe_inject_transient-Keeps step event = search (keeps_rules, inject_transient-Keeps)

  pub record_step-Keeps :
      {F : Saga → Type 0} (step : String) (detail : Fields)
      → float_free_fields detail ≡ true
      → IsStable F step
      → Keeps (Showing d k F) (record_step d host (str k) step "DONE" detail)
  record_step-Keeps step detail plain stable = record {
    at = record_step-Showing step "DONE" detail plain (stable.noting detail);
  }

module _ {T : Type 0} (d : Dynamo T) (host : Host) {k : String} (event : Event)
    (a : Addressed event k) where
  pub addressed-Keeps :
      {A : Type 0} {P : T → Type 0} (f : Fields → Value → Exec SagaError T A)
      → Keeps P (f a.order (str k))
      → Keeps P (
          lift (order_of event) >>= λ order.
          lift (subscript order "order_id") >>= λ key. f order key)
  unfolding ◌>>=◌
  addressed-Keeps f body = record { at = λ w h. rw (a.valid, a.keyed) (body.at w h) }

  module _ {F : Saga → Type 0} (f : Forward) (stable : IsStable F (step_name f)) where
    gate-Keeps : Keeps (Showing d k F) (maybe_inject_transient d host (str k) (step_name f) event)
    gate-Keeps = maybe_inject_transient-Keeps d host k a.named stable.counting (step_name f) event

    noted_id-Keeps :
        (id : String)
        → Keeps
            (Showing d k F)
            (record_step d host (str k) (step_name f) "DONE" (field (id_name f) (str id) end))
    noted_id-Keeps id =
        record_step-Keeps d host k a.named (step_name f) _ (id_plain (id_name f) id) stable

    drawn-Keeps : (prefix : String) → Keeps (Showing d k F) (new_id d host prefix)
    drawn-Keeps prefix = Keeps-bind _ _ (Keeps-draw_id host.uuid) λ hex. Keeps-pure _

  -- A forward step keeps a stable fact, whether it returns or raises.
  pub forward-Keeps :
      {F : Saga → Type 0} (f : Forward)
      → IsStable F (step_name f)
      → Keeps (Showing d k F) (forward d host f event)
  unfolding forward charge_payment reserve_inventory schedule_shipment
  forward-Keeps charge stable = addressed-Keeps _ (
      Keeps-bind _ _ (gate-Keeps charge stable) λ _. Keeps-bind _ _ (Keeps-raise_if _ _) λ _.
        Keeps-bind _ _ (drawn-Keeps charge stable "pay") λ id.
          Keeps-bind _ _ (Keeps-lift _)
            λ _. Keeps-bind _ _ (noted_id-Keeps charge stable id) λ _. Keeps-pure _)
  forward-Keeps reserve stable = addressed-Keeps _ (
      Keeps-bind _ _ (gate-Keeps reserve stable) λ _. Keeps-bind _ _ (Keeps-raise_if _ _) λ _.
        Keeps-bind _ _ (drawn-Keeps reserve stable "rsv")
          λ id. Keeps-bind _ _ (noted_id-Keeps reserve stable id) λ _. Keeps-pure _)
  forward-Keeps ship stable = addressed-Keeps _ (
      Keeps-bind _ _ (gate-Keeps ship stable) λ _. Keeps-bind _ _ (Keeps-raise_if _ _) λ _.
        Keeps-bind _ _ (drawn-Keeps ship stable "shp") λ id.
          Keeps-bind _ _ (drawn-Keeps ship stable "trk")
            λ _. Keeps-bind _ _ (noted_id-Keeps ship stable id) λ _. Keeps-pure _)
