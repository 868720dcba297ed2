-- ===== src/Saga/Gate.antt =====
-- `_order` and `_maybe_inject_transient`: where a handler's event leads, on each branch.
use aws_serverless_patterns.Prelude.{String, false, true, ◌≡◌, some, none, ◌==◌, Option}
use aws_serverless_patterns.Prelude.Int.{ℤ, ltb_ℤ}
use aws_serverless_patterns.Py.Value.{Value, str, obj, end, Fields, get, or_else, truthy, is_falsy}
use aws_serverless_patterns.Py.Host.{Host, subscript, dict_get, int_of}
use aws_serverless_patterns.Py.Exec.{Result, Raised, World, ok, own}
use aws_serverless_patterns.Py.Ends.{
  Ends, Fails, Ends-bind, Fails-bind, Ends-lift, Ends-pure, Fails-raise_if, Ends-raise_if,
}
use aws_serverless_patterns.Dynamo.{Dynamo, next_count}
use aws_serverless_patterns.Saga.Errors.{SagaError, saga_transient_error}
use aws_serverless_patterns.Saga.Handlers.{order_of, maybe_inject_transient, inject_transient}
use aws_serverless_patterns.Saga.View.{Saga, Shows, attempted}
use aws_serverless_patterns.Saga.Store.Refines.{increment_attempt-Ends}

-- The event carries an order with a text for its id.
pub record Addressed (event : Fields) (k : String) : Type 0 where
  pub order : Fields
  pub valid : order_of event ≡ ok order
  pub keyed : subscript {E = SagaError} order "order_id" ≡ ok (str k)
  pub named : (k == "") ≡ false

-- `flaky_steps.get(step)`
unfoldable pub flaky_target : Fields → String → Result (Raised SagaError) (Option Value)
flaky_target event step = dict_get (or_else (get "flaky_steps" event) (obj end)) step

-- The step is not to fail: it is not listed, or listed with 0 or null.
pub record IsSteady (event : Fields) (step : String) : Type 0 where
  pub entry : Option Value
  pub listed : flaky_target event step ≡ ok entry
  pub falsy : is_falsy entry ≡ true

-- The step is to succeed on attempt `target`.
pub record IsFlaky (host : Host) (event : Fields) (step : String) (target : ℤ) : Type 0 where
  pub entry : Value
  pub listed : flaky_target event step ≡ ok (some entry)
  pub given : truthy entry ≡ true
  pub number : int_of {E = SagaError} host entry ≡ ok target

module _ {T : Type 0} (d : Dynamo T) (host : Host) (k : String) (named : (k == "") ≡ false)
    (event : Fields) (step : String) (w : World T) {saga : Saga} where
  inject_nothing-Ends :
      (w : World T) (entry : Option Value)
      → is_falsy entry ≡ true
      → Shows d k saga w.cloud
      → Ends (Shows d k) (inject_transient d host (str k) step entry) w tt saga
  inject_nothing-Ends w none falsy h = Ends-pure _ _ h
  inject_nothing-Ends w (some v) falsy h = rw falsy (Ends-pure _ _ h)

  pub steady-Ends :
      IsSteady event step
      → Shows d k saga w.cloud
      → Ends (Shows d k) (maybe_inject_transient d host (str k) step event) w tt saga
  unfolding maybe_inject_transient flaky_target
  steady-Ends steady h =
      Ends-bind _ _ w (Ends-lift _ w steady.listed h)
        (λ h'. inject_nothing-Ends _ steady.entry steady.falsy h')

  module _ {target n : ℤ} (flaky : IsFlaky host event step target)
      (next : next_count (saga.attempts step) ≡ some n) (h : Shows d k saga w.cloud) where
    pub flaky-Ends :
        ltb_ℤ n target ≡ false
        → Ends
            (Shows d k)
            (maybe_inject_transient d host (str k) step event)
            w
            tt
            (attempted step n saga)
    unfolding maybe_inject_transient flaky_target
    flaky-Ends reached = Ends-bind _ _ w (Ends-lift _ w flaky.listed h) (λ h'. rw flaky.given (
        Ends-bind _ _ _ (increment_attempt-Ends d host k named _ step n next h') λ h''.
          Ends-bind _ _ _ (Ends-lift _ _ flaky.number h'')
            λ h'''. Ends-raise_if _ _ _ reached h'''))

    pub flaky-Fails :
        ltb_ℤ n target ≡ true
        → Fails
            (Shows d k)
            (maybe_inject_transient d host (str k) step event)
            w
            (own saga_transient_error)
            (attempted step n saga)
    unfolding maybe_inject_transient flaky_target
    flaky-Fails early = Fails-bind _ _ w (Ends-lift _ w flaky.listed h) (λ h'. rw flaky.given (
        Fails-bind _ _ _ (increment_attempt-Ends d host k named _ step n next h') λ h''.
          Fails-bind _ _ _ (Ends-lift _ _ flaky.number h'')
            λ h'''. Fails-raise_if _ _ _ early h'''))
