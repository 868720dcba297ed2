-- ===== src/Saga/Create.antt =====
-- `create_order`: it starts the record afresh on every call.
use aws_serverless_patterns.Prelude.Int.{◌+ℤ◌, pos, leb_ℤ}
use aws_serverless_patterns.Prelude.{
  refl, inl, inr, Bool-cases, none, some, String, ℕ, ◌<◌, ◌≡◌, false, true, ◌⊎◌, arith,
}
use aws_serverless_patterns.Py.Host.{Host, float_of, len_of}
use aws_serverless_patterns.Dynamo.{Dynamo, next_count}
use aws_serverless_patterns.Py.Value.{
  Fields, Number, get_or, float_free, float_free_fields, int, or_else, truthy, get, arr, nil, str,
}
use aws_serverless_patterns.Saga.Gate.{Addressed, IsFlaky, IsSteady, flaky-Fails, steady-Ends}
use aws_serverless_patterns.Py.Exec.{World, ◌>>=◌, ok, own, err}
use aws_serverless_patterns.Saga.Errors.{SagaError, saga_transient_error, saga_business_error}
use aws_serverless_patterns.Saga.Handlers.{create_order, fails_at, created}
use aws_serverless_patterns.Py.Ends.{
  Fails, Ends, Fails-bind_lift, Fails-bind_if, Fails-bind, Ends-bind_lift, Fails-first,
  Ends-bind_if, Ends-bind, Ends-raise_if, Ends-lift, Ends-pure,
}
use aws_serverless_patterns.Saga.View.{Shows, attempted, started, noted}
use aws_serverless_patterns.Saga.Forward.{addressed-Fails, addressed-Ends}
use aws_serverless_patterns.Saga.Store.Refines.{start-Ends, record_step-Ends}

-- An order that passes the checks of `create_order`.
pub record Acceptable (host : Host) (order : Fields) : Type 0 where
  pub amount : Number
  pub priced : float_of {E = SagaError} host (get_or order "amount" (int (pos 0))) ≡ ok amount
  pub positive : leb_ℤ amount.mantissa (pos 0) ≡ false
  pub filled : truthy (or_else (get "items" order) (arr nil)) ≡ true

first_count : next_count none ≡ some (pos 1)
unfolding ◌+ℤ◌
first_count = refl

module _ {T : Type 0} (d : Dynamo T) (host : Host) {k : String} (event : Fields)
    (a : Addressed event k) (fine : Acceptable host a.order) (w : World T) where
  -- For an acceptable order whose create_order step is neither flaky nor to fail, and whose items
  -- have a length, create_order returns the pending order with its number of items, and the item
  -- then shows a started saga with this one step DONE and no attempts, whatever the table held
  -- before.
  pub create_order-Ends :
      (n : ℕ)
      → IsSteady event "create_order"
      → fails_at event "create_order" ≡ false
      → len_of {E = SagaError} (or_else (get "items" a.order) (arr nil)) ≡ ok n
      → Ends
          (Shows d k)
          (create_order d host event)
          w
          (created (str k) n)
          (noted "create_order" "DONE" (created (str k) n) started)
  unfolding create_order float_free float_free_fields
  create_order-Ends n steady spared sized = addressed-Ends d host event a w _ (
      Ends-bind_lift _ _ w fine.priced (
        Ends-bind_if _ _ _ w fine.positive (
          Ends-bind_if _ _ _ w (rw fine.filled) (
            Ends-bind _ _ w (start-Ends d host k a.named _ _ _ _ w) λ h1.
              Ends-bind _ _ _ (steady-Ends d host k a.named event _ _ steady h1) λ h2.
                Ends-bind _ _ _ (Ends-raise_if _ _ _ spared h2) λ h3.
                  Ends-bind _ _ _ (Ends-lift _ _ sized h3) λ h4.
                    Ends-bind _ _ _ (record_step-Ends d host k a.named _ _ _ _ refl h4)
                      λ h5. Ends-pure _ _ h5))))

  -- For an acceptable order create_order with a flaky_steps entry above 1 raises the transient
  -- error on every call and from every table, since each call resets the attempt counter, which
  -- then stands at 1.
  pub create_order-Fails_flaky :
      (t : ℕ)
      → IsFlaky host event "create_order" (pos t)
      → 1 < t
      → Fails
          (Shows d k)
          (create_order d host event)
          w
          (own saga_transient_error)
          (attempted "create_order" (pos 1) started)
  unfolding create_order
  create_order-Fails_flaky t flaky above = addressed-Fails d host event a w _ (
      Fails-bind_lift _ _ w fine.priced (
        Fails-bind_if _ _ _ w fine.positive (
          Fails-bind_if _ _ _ w (rw fine.filled) (
            Fails-bind _ _ w (start-Ends d host k a.named _ _ _ _ w) λ h1.
              Fails-first _ _ _
                (flaky-Fails d host k a.named event _ _ flaky first_count h1 (ground arith))))))

module _ {T : Type 0} (d : Dynamo T) (host : Host) {k : String} (event : Fields)
    (a : Addressed event k) (w : World T) where
  -- An order that is named by a text that is not empty, whose amount, or 0 where it names none,
  -- float can read, and which is not positive or comes with no items, is refused with the business
  -- error before anything is written.
  pub create_order_refused :
      (amount : Number)
      → float_of {E = SagaError} host (get_or a.order "amount" (int (pos 0))) ≡ ok amount
      → (leb_ℤ amount.mantissa (pos 0) ≡ true)
        ⊎ (truthy (or_else (get "items" a.order) (arr nil)) ≡ false)
      → create_order d host event w ≡ (err (own saga_business_error), w)
  unfolding create_order ◌>>=◌
  create_order_refused amount priced (inl free) = rw (a.valid, a.keyed, priced, free)
  create_order_refused amount priced (inr bare) =
      elim (Bool-cases (leb_ℤ amount.mantissa (pos 0))) [
        | inl free ↦ rw (a.valid, a.keyed, priced, free)
        | inr dear ↦ rw (a.valid, a.keyed, priced, dear, bare)
      ]
