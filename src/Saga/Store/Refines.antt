-- ===== src/Saga/Store/Refines.antt =====
-- Every method of the store does to the item what the abstract saga says.
use aws_serverless_patterns.Prelude.{
  none, ◌+◌, ℕ, String, false, true, ◌≡◌, refl, some, ◌==◌, arith, eq_refl, Bool-cases, ltb, inl,
  inr, Option, suc,
}
use aws_serverless_patterns.Prelude.Int.{ℤ}
use aws_serverless_patterns.Py.Value.{
  Number, str, Fields, get, set, get-set, float_free_fields, float_free, obj, int, end,
}
use aws_serverless_patterns.Py.Host.{Host}
use aws_serverless_patterns.Py.Exec.{World, ◌>>=◌}
use aws_serverless_patterns.Py.Ends.{Ends}
use aws_serverless_patterns.Dynamo.{Dynamo, next_count, add_to-next_count, set_attribute}
use aws_serverless_patterns.Dynamo.Client.{update_item, put_item}
use aws_serverless_patterns.Saga.Store.{
  record_step, set_status, increment_attempt, start, stepped, step_entry, new_item, time_value,
  SagaError,
}
use aws_serverless_patterns.Saga.View.{Saga, Shows, noted, in_status, attempted, started}

module _ {T : Type 0} (d : Dynamo T) (host : Host) (k : String) (named : (k == "") ≡ false)
    (w : World T) {saga : Saga} where
  pub record_step-Ends :
      (step status : String) (detail : Fields)
      → float_free_fields detail ≡ true
      → Shows d k saga w.cloud
      → Ends
          (Shows d k)
          (record_step d host (str k) step status detail)
          w
          tt
          (noted step status detail saga)
  unfolding record_step update_item ◌>>=◌ float_free float_free_fields
  record_step-Ends step status detail plain h = record {
    returned = rw (d.update_result, plain, named, h.found, h.steps_are);
    after =
        rw (d.update_result, plain, named, h.found, h.steps_are)
          (record {
            item = stepped host w.clock step status detail h.steps h.item;
            steps = set step (step_entry status detail (host.time w.clock)) h.steps;
            counters = h.counters;
            found = rw (d.item-update, plain, named, h.found, h.steps_are, eq_refl);
            status_is = h.status_is;
            steps_are = refl;
            counters_are = h.counters_are;
            outcomes = λ s. rw get-set (unfold get in ground (arith, h.outcomes s));
            attempts = h.attempts;
          });
  }

  -- `set_status` needs no more of the item than that it is there.
  pub set_status-Ends :
      (status : String)
      → Shows d k saga w.cloud
      → Ends (Shows d k) (set_status d host (str k) status) w tt (in_status status saga)
  unfolding set_status update_item ◌>>=◌ float_free
  set_status-Ends status h = record {
    returned = rw (d.update_result, named);
    after =
        rw (d.update_result, named)
          (record {
            item =
                set_attribute "updated_at" (time_value (host.time w.clock))
                  (set_attribute "status" (str status) h.item);
            steps = h.steps;
            counters = h.counters;
            found = rw (d.item-update, named, h.found, eq_refl);
            status_is = refl;
            steps_are = h.steps_are;
            counters_are = h.counters_are;
            outcomes = h.outcomes;
            attempts = h.attempts;
          });
  }

  pub increment_attempt-Ends :
      (step : String) (n : ℤ)
      → next_count (saga.attempts step) ≡ some n
      → Shows d k saga w.cloud
      → Ends (Shows d k) (increment_attempt d host (str k) step) w n (attempted step n saga)
  unfolding increment_attempt update_item ◌>>=◌ float_free
  increment_attempt-Ends step n next h =
      let added = add_to-next_count (get step h.counters) n (rw h.attempts next) in
      record {
        returned = rw (d.update_result, named, h.found, h.counters_are, added, get-set, eq_refl);
        after =
            rw (d.update_result, named, h.found, h.counters_are, added)
              (record {
                item =
                    set_attribute "updated_at" (time_value (host.time w.clock))
                      (set_attribute "attempts" (obj (set step (int n) h.counters)) h.item);
                steps = h.steps;
                counters = set step (int n) h.counters;
                found = rw (d.item-update, named, h.found, h.counters_are, added, eq_refl);
                status_is = h.status_is;
                steps_are = h.steps_are;
                counters_are = refl;
                outcomes = h.outcomes;
                attempts = λ s. rw get-set (ground (arith, h.attempts s));
              });
      }

-- `start` needs no item: whatever was there is replaced.
module _ {T : Type 0} (d : Dynamo T) (host : Host) (k : String) (named : (k == "") ≡ false) where
  put_new-Ends :
      (customer_id currency : String) (amount : Number) (created updated : ℕ) (expires : Option ℕ)
      (w : World T)
      → Ends {E = SagaError}
          (Shows d k)
          (put_item d
            (str k)
            (new_item (str k) customer_id amount currency created updated expires))
          w
          tt
          started
  unfolding put_item float_free float_free_fields new_item set get
  put_new-Ends customer_id currency amount created updated none w = record {
    returned = rw (d.put_result, named);
    after = record {
      item = λ a. get a (new_item (str k) customer_id amount currency created updated none);
      steps = end;
      counters = end;
      found = rw (d.item-put, named, eq_refl);
      status_is = refl;
      steps_are = refl;
      counters_are = refl;
      outcomes = λ s. refl;
      attempts = λ s. refl;
    };
  }
  put_new-Ends customer_id currency amount created updated (some t) w = record {
    returned = rw (d.put_result, named);
    after = record {
      item = λ a. get a (new_item (str k) customer_id amount currency created updated (some t));
      steps = end;
      counters = end;
      found = rw (d.item-put, named, eq_refl);
      status_is = refl;
      steps_are = refl;
      counters_are = refl;
      outcomes = λ s. refl;
      attempts = λ s. refl;
    };
  }

  pub start-Ends :
      (customer_id currency : String) (amount : Number) (ttl_seconds : ℕ) (w : World T)
      → Ends (Shows d k) (start d host (str k) customer_id amount currency ttl_seconds) w tt started
  unfolding start ◌>>=◌
  start-Ends customer_id currency amount ttl_seconds w = elim (Bool-cases (ltb 0 ttl_seconds)) [
    | inl lives ↦
        let new =
          put_new-Ends customer_id currency amount (host.time w.clock) (host.time (suc w.clock))
            (some (host.time (suc (suc w.clock)) + ttl_seconds))
            (record w { clock = suc (suc (suc w.clock)) }) in
        record { returned = rw lives new.returned; after = rw lives new.after }
    | inr forever ↦
        let new =
          put_new-Ends customer_id currency amount (host.time w.clock) (host.time (suc w.clock))
            none (record w { clock = suc (suc w.clock) }) in
        record { returned = rw forever new.returned; after = rw forever new.after }
  ]
