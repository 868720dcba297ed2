-- ===== src/Saga/Retry.antt =====
-- The `Retry` rule of a task for `SagaTransientError`, with `flaky_steps` behind it: the first
-- calls raise, and the counter in the store decides when one succeeds.
use aws_serverless_patterns.Prelude.{
  ℕ, zero, suc, String, Bool, true, false, ◌≡◌, ap, some, arith, if◌then◌else◌, eq_refl, ◌<◌, ◌≤◌,
  ◌+◌,
}
use aws_serverless_patterns.Prelude.Int.{ℤ, pos, ◌+ℤ◌}
use aws_serverless_patterns.Py.Exec.{Result, err, Raised, own, World, Exec}
use aws_serverless_patterns.Py.Ends.{Ends, Fails}
use aws_serverless_patterns.Dynamo.{next_count, Dynamo}
use aws_serverless_patterns.Saga.Errors.{SagaError, saga_transient_error}
use native.Mathlib.Nat.{add-zero}
use native.Mathlib.Decide.{dec_lt}
use aws_serverless_patterns.Saga.View.{Saga, attempted, Shows, noted}
use mathlib.Core.Path.{fun_ext}
use aws_serverless_patterns.Py.Host.{Host}
use aws_serverless_patterns.Saga.Forward.{
  Forward, id_name, step_name, IsPriced, forward, forward-Fails_early, forward-Done,
}
use aws_serverless_patterns.Py.Value.{Fields, get, str, field, end}
use aws_serverless_patterns.Saga.Gate.{Addressed, IsFlaky, flaky-Fails, flaky-Ends}
use aws_serverless_patterns.Saga.Handlers.{fails_at}

abbrev pub is_transient : {A : Type 0} → Result (Raised SagaError) A → Bool
is_transient (err (own saga_transient_error)) = true
is_transient _ = false

-- At most `n` further calls, one after each transient error.
unfoldable pub retry : {T A : Type 0} → ℕ → Exec SagaError T A → Exec SagaError T A
retry zero m w = m w
retry (suc n) m w = let again = retry n m (m w).1 in if is_transient (m w).0 then again else m w

module _ {T A S : Type 0} {R : S → T → Type 0} (m : Exec SagaError T A) (w : World T) where
  pub retry-Ends : (n : ℕ) {a : A} {s : S} → Ends R m w a s → Ends R (retry n m) w a s
  unfolding retry
  retry-Ends zero e = record { returned = e.returned; after = e.after }
  retry-Ends (suc n) e = record { returned = rw e.returned; after = rw e.returned e.after }

  pub retry_again-Ends :
      (n : ℕ) {a : A} {s s' : S}
      → Fails R m w (own saga_transient_error) s
      → Ends R (retry n m) (m w).1 a s'
      → Ends R (retry (suc n) m) w a s'
  unfolding retry
  retry_again-Ends n f e = record { returned = rw f.raised e.returned; after = rw f.raised e.after }

  pub retry_zero-Fails :
      {e : Raised SagaError} {s : S} → Fails R m w e s → Fails R (retry 0 m) w e s
  unfolding retry
  retry_zero-Fails f = record { raised = f.raised; after = f.after }

  pub retry_again-Fails :
      (n : ℕ) {e : Raised SagaError} {s s' : S}
      → Fails R m w (own saga_transient_error) s
      → Fails R (retry n m) (m w).1 e s'
      → Fails R (retry (suc n) m) w e s'
  unfolding retry
  retry_again-Fails n f e = record { raised = rw f.raised e.raised; after = rw f.raised e.after }

attempted_twice :
    (step : String) (m n : ℤ) (saga : Saga)
    → attempted step n (attempted step m saga) ≡ attempted step n saga
attempted_twice step m n saga = ap (λ f. record saga { attempts = f }) (fun_ext λ s. ground arith)

next_count-attempted :
    (step : String) (a : ℕ) (saga : Saga)
    → next_count ((attempted step (pos (suc a)) saga).attempts step) ≡ some (pos (suc (suc a)))
unfolding ◌+ℤ◌
next_count-attempted step a saga = rw eq_refl (ground arith)

shift : (n r : ℕ) → suc (suc n) + r ≡ suc n + suc r
shift n r = omega arith

-- What a flaky step leaves in the store once it has succeeded on its `t`-th attempt.
pub record Recovered {T : Type 0} (d : Dynamo T) (host : Host) (k : String) (f : Forward)
    (event : Fields) (r t : ℕ) (w : World T) (saga : Saga) : Type 0 where
  pub id : String
  pub result : Fields
  pub names : get (id_name f) result ≡ some (str id)
  pub ends : Ends (Shows d k) (retry r (forward d host f event)) w result (
      noted
        (step_name f)
        "DONE"
        (field (id_name f) (str id) end)
        (attempted (step_name f) (pos t) saga))

module _ {T : Type 0} (d : Dynamo T) (host : Host) {k : String} (f : Forward) (event : Fields)
    (a : Addressed event k) (t : ℕ) (flaky : IsFlaky host event (step_name f) (pos t)) where
  -- One more call before the target is reached.
  early_call :
      (n : ℕ) (w : World T) {saga : Saga}
      → suc n < t
      → next_count (saga.attempts (step_name f)) ≡ some (pos (suc n))
      → Shows d k saga w.cloud
      → Fails
          (Shows d k)
          (forward d host f event)
          w
          (own saga_transient_error)
          (attempted (step_name f) (pos (suc n)) saga)
  early_call n w early next h =
      forward-Fails_early d host event a w f
        (flaky-Fails d host k a.named event (step_name f) w flaky next h (ground arith))

  -- The call that reaches it.
  last_call :
      (r n : ℕ) (w : World T) (saga : Saga)
      → fails_at event (step_name f) ≡ false
      → IsPriced host f a.order
      → suc n ≡ t
      → next_count (saga.attempts (step_name f)) ≡ some (pos (suc n))
      → Shows d k saga w.cloud
      → Recovered d host k f event r t w saga
  last_call r n w saga spared priced reached next h =
      let gate = flaky-Ends d host k a.named event (step_name f) w flaky next h (ground arith) in
      let step = forward-Done d host event a w f gate spared priced in
      record {
        id = step.id;
        result = step.result;
        names = step.names;
        ends = retry-Ends (forward d host f event) w r (rw (← reached) step.ends);
      }

  later_call :
      (r n : ℕ) (w : World T) (saga : Saga)
      → Fails
          (Shows d k)
          (forward d host f event)
          w
          (own saga_transient_error)
          (attempted (step_name f) (pos (suc n)) saga)
      → Recovered d host k f event r t
          (forward d host f event w).1
          (attempted (step_name f) (pos (suc n)) saga)
      → Recovered d host k f event (suc r) t w saga
  later_call r n w saga once rest = record {
    id = rest.id;
    result = rest.result;
    names = rest.names;
    ends =
        retry_again-Ends (forward d host f event) w r once
          (rw (attempted_twice (step_name f) (pos (suc n)) (pos t) saga) at rest.ends);
  }

  -- A forward step after create_order whose flaky_steps entry is t, of which n < t attempts are
  -- counted, returns within r retries of the transient error if t ≤ n + 1 + r, given that fail_at
  -- does not name it and that charge_payment can read the amount: it records its id once as DONE,
  -- returns that id, and leaves the counter at t.
  pub forward_recovers :
      (r n : ℕ) (w : World T) (saga : Saga)
      → fails_at event (step_name f) ≡ false
      → IsPriced host f a.order
      → n < t
      → t ≤ suc n + r
      → next_count (saga.attempts (step_name f)) ≡ some (pos (suc n))
      → Shows d k saga w.cloud
      → Recovered d host k f event r t w saga
  forward_recovers zero n w saga spared priced low high next h =
      last_call zero n w saga spared priced (omega arith) next h
  forward_recovers (suc r) n w saga spared priced low high next h = elim (dec_lt (suc n) t) [
    | yes early ↦
        let once = early_call n w early next h in
        later_call r n w saga once (
          forward_recovers r (suc n) (forward d host f event w).1
            (attempted (step_name f) (pos (suc n)) saga) spared priced early (omega arith)
            (next_count-attempted (step_name f) n saga) once.after)
    | no late ↦ last_call (suc r) n w saga spared priced (omega arith) next h
  ]

  -- A forward step after create_order whose flaky_steps entry t lies beyond the r retries, n + 1 +
  -- r < t, raises the transient error after the last of them, with nothing recorded and the
  -- counter at n + 1 + r.
  pub forward_exhausts :
      (r n : ℕ) (w : World T) (saga : Saga)
      → suc n + r < t
      → next_count (saga.attempts (step_name f)) ≡ some (pos (suc n))
      → Shows d k saga w.cloud
      → Fails
          (Shows d k)
          (retry r (forward d host f event))
          w
          (own saga_transient_error)
          (attempted (step_name f) (pos (suc n + r)) saga)
  forward_exhausts zero n w saga short next h =
      rw (add-zero (suc n))
        (retry_zero-Fails (forward d host f event) w (early_call n w (omega arith) next h))
  forward_exhausts (suc r) n w saga short next h =
      let once = early_call n w (omega arith) next h in
      let rest =
        forward_exhausts r (suc n) (forward d host f event w).1
          (attempted (step_name f) (pos (suc n)) saga) (omega arith)
          (next_count-attempted (step_name f) n saga) once.after in
      retry_again-Fails (forward d host f event) w r once (
        rw (attempted_twice (step_name f) (pos (suc n)) (pos (suc (suc n) + r)) saga, shift n r) at
          rest)
