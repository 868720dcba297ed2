-- ===== src/Saga/Forward.antt =====
-- The forward steps after `create_order`: what each records, and how it fails.
use aws_serverless_patterns.Prelude.{Bool, String, false, true, ◌≡◌, refl, some}
use aws_serverless_patterns.Prelude.Int.{pos}
use aws_serverless_patterns.Py.Value.{
  Value, Number, int, str, Fields, field, end, get, get_or, float_free, float_free_fields,
}
use aws_serverless_patterns.Py.Host.{Host, float_of, subscript}
use aws_serverless_patterns.Py.Exec.{Raised, World, Exec, ok, own, lift, raise_if, ◌>>=◌}
use aws_serverless_patterns.Py.Ends.{
  Ends, Fails, Ends-bind, Ends-lift, Ends-pure, Ends-raise_if, Ends-draw_id, Fails-bind,
  Fails-first, Fails-raise_if,
}
use Prim.Native.String.{◌++◌ as concat}
use aws_serverless_patterns.Saga.Handlers.{
  new_id, order_of, maybe_inject_transient, fails_at, charge_payment, reserve_inventory,
  schedule_shipment,
}
use aws_serverless_patterns.Dynamo.{Dynamo}
use aws_serverless_patterns.Saga.Errors.{SagaError, saga_business_error}
use aws_serverless_patterns.Saga.View.{Saga, Shows, noted}
use aws_serverless_patterns.Saga.Gate.{Addressed}
use aws_serverless_patterns.Saga.Store.Refines.{record_step-Ends}

pub data Forward : Type 0 where
  charge reserve ship : Forward

abbrev pub step_name : Forward → String
step_name charge = "charge_payment"
step_name reserve = "reserve_inventory"
step_name ship = "schedule_shipment"

-- What the step's ids begin with.
abbrev pub prefix_of : Forward → String
prefix_of charge = "pay"
prefix_of reserve = "rsv"
prefix_of ship = "shp"

-- The field that holds the id of what the step made.
abbrev pub id_name : Forward → String
id_name charge = "payment_id"
id_name reserve = "reservation_id"
id_name ship = "shipment_id"

module _ {T : Type 0} (d : Dynamo T) (host : Host) where
  unfoldable pub forward : Forward → Fields → Exec SagaError T Fields
  forward charge = charge_payment d host
  forward reserve = reserve_inventory d host
  forward ship = schedule_shipment d host

-- Only `charge_payment` reads the amount.
abbrev pub IsPriced : Host → Forward → Fields → Type 0
IsPriced host charge order =
    (amount : Number) × (float_of {E = SagaError} host (get_or order "amount" (int (pos 0)))
      ≡ ok amount)
IsPriced host _ order = Unit

module _ {T : Type 0} (d : Dynamo T) (host : Host) {k : String} (event : Fields)
    (a : Addressed event k) (w : World T) {after : Saga} where
  -- Every handler begins by reading the order and its id.
  pub addressed-Ends :
      {A : Type 0} (f : Fields → Value → Exec SagaError T A) {b : A}
      → Ends (Shows d k) (f a.order (str k)) w b after
      → Ends
          (Shows d k)
          (lift (order_of event) >>= λ order.
            lift (subscript order "order_id") >>= λ key. f order key)
          w
          b
          after
  unfolding ◌>>=◌
  addressed-Ends f m = record {
    returned = rw (a.valid, a.keyed) m.returned;
    after = rw (a.valid, a.keyed) m.after;
  }

  pub addressed-Fails :
      {A : Type 0} (f : Fields → Value → Exec SagaError T A) {e : Raised SagaError}
      → Fails (Shows d k) (f a.order (str k)) w e after
      → Fails
          (Shows d k)
          (lift (order_of event) >>= λ order.
            lift (subscript order "order_id") >>= λ key. f order key)
          w
          e
          after
  unfolding ◌>>=◌
  addressed-Fails f m = record {
    raised = rw (a.valid, a.keyed) m.raised;
    after = rw (a.valid, a.keyed) m.after;
  }

-- A step whose gate lets it pass, and which is not the one to fail, records an id and returns it.
pub record Done {T : Type 0} (d : Dynamo T) (host : Host) (k : String) (f : Forward)
    (event : Fields) (w : World T) (saga : Saga) : Type 0 where
  pub id : String
  -- The id is made of the kind's prefix and the uuid that is drawn next after the gate.
  pub fresh :
      id
      ≡ concat (prefix_of f) (
          concat "-"
            (host.uuid (maybe_inject_transient d host (str k) (step_name f) event w).1.ids))
  pub result : Fields
  pub names : get (id_name f) result ≡ some (str id)
  pub ends :
      Ends
        (Shows d k)
        (forward d host f event)
        w
        result
        (noted (step_name f) "DONE" (field (id_name f) (str id) end) saga)

module _ {T : Type 0} (d : Dynamo T) (host : Host) (k : String) (f : Forward) (event : Fields) where
  done :
      {id : String} {result : Fields} (w : World T) {saga : Saga}
      → get (id_name f) result ≡ some (str id)
      → Ends
          (Shows d k)
          (forward d host f event)
          w
          result
          (noted (step_name f) "DONE" (field (id_name f) (str id) end) saga)
      → id
        ≡ concat (prefix_of f) (
            concat "-"
              (host.uuid (maybe_inject_transient d host (str k) (step_name f) event w).1.ids))
      → Done d host k f event w saga
  done {id} {result} w names ends fresh = record {
    id = id;
    fresh = fresh;
    result = result;
    names = names;
    ends = ends;
  }

gated_id :
    {T : Type 0} (host : Host) (prefix : String) (b : Bool) (e : Raised SagaError) (w : World T)
    → b ≡ false
    → concat prefix (concat "-" (host.uuid (raise_if b e w).1.ids))
      ≡ concat prefix (concat "-" (host.uuid w.ids))
unfolding raise_if
gated_id host prefix b e w spared = rw spared refl

new_id-Ends :
    {T : Type 0} (d : Dynamo T) (host : Host) {k : String} (prefix : String) (w : World T)
    {saga : Saga}
    → Shows d k saga w.cloud
    → Ends (Shows d k) (new_id d host prefix) w (concat prefix (concat "-" (host.uuid w.ids))) saga
new_id-Ends d host prefix w h = Ends-bind _ _ w (Ends-draw_id host.uuid w h) λ h'. Ends-pure _ _ h'

module _ {T : Type 0} (d : Dynamo T) (host : Host) {k : String} (event : Fields)
    (a : Addressed event k) (w : World T) {after : Saga} where
  charge-Done :
      Ends (Shows d k) (maybe_inject_transient d host (str k) "charge_payment" event) w tt after
      → fails_at event "charge_payment" ≡ false
      → IsPriced host charge a.order
      → Done d host k charge event w after
  unfolding forward charge_payment get float_free float_free_fields
  charge-Done gate spared priced =
      done d host k charge event w refl
        (addressed-Ends d host event a w _ (
          Ends-bind _ _ w gate λ h1. Ends-bind _ _ _ (Ends-raise_if _ _ _ spared h1) λ h2.
            Ends-bind _ _ _ (new_id-Ends d host "pay" _ h2) λ h3.
              Ends-bind _ _ _ (Ends-lift _ _ priced.1 h3) λ h4.
                Ends-bind _ _ _ (record_step-Ends d host k a.named _ _ _ _ refl h4)
                  λ h5. Ends-pure _ _ h5))
        (gated_id host "pay" _ _ _ spared)

  reserve-Done :
      Ends (Shows d k) (maybe_inject_transient d host (str k) "reserve_inventory" event) w tt after
      → fails_at event "reserve_inventory" ≡ false
      → Done d host k reserve event w after
  unfolding forward reserve_inventory get float_free float_free_fields
  reserve-Done gate spared =
      done d host k reserve event w refl
        (addressed-Ends d host event a w _ (
          Ends-bind _ _ w gate λ h1. Ends-bind _ _ _ (Ends-raise_if _ _ _ spared h1) λ h2.
            Ends-bind _ _ _ (new_id-Ends d host "rsv" _ h2) λ h3.
              Ends-bind _ _ _ (record_step-Ends d host k a.named _ _ _ _ refl h3)
                λ h4. Ends-pure _ _ h4))
        (gated_id host "rsv" _ _ _ spared)

  ship-Done :
      Ends (Shows d k) (maybe_inject_transient d host (str k) "schedule_shipment" event) w tt after
      → fails_at event "schedule_shipment" ≡ false
      → Done d host k ship event w after
  unfolding forward schedule_shipment get float_free float_free_fields
  ship-Done gate spared =
      done d host k ship event w refl
        (addressed-Ends d host event a w _ (
          Ends-bind _ _ w gate λ h1. Ends-bind _ _ _ (Ends-raise_if _ _ _ spared h1) λ h2.
            Ends-bind _ _ _ (new_id-Ends d host "shp" _ h2) λ h3.
              Ends-bind _ _ _ (new_id-Ends d host "trk" _ h3) λ h4.
                Ends-bind _ _ _ (record_step-Ends d host k a.named _ _ _ _ refl h4)
                  λ h5. Ends-pure _ _ h5))
        (gated_id host "shp" _ _ _ spared)

  -- A forward step after create_order, for an order named by a text that is not empty, whose
  -- transient gate lets it pass, which fail_at does not name and which can read the amount where
  -- it charges, returns a result that holds, under the field of its kind, an id made of the prefix
  -- of the kind and the next uuid that is drawn, and records exactly this id as DONE over the
  -- state that the gate left.
  pub forward-Done :
      (f : Forward)
      → Ends (Shows d k) (maybe_inject_transient d host (str k) (step_name f) event) w tt after
      → fails_at event (step_name f) ≡ false
      → IsPriced host f a.order
      → Done d host k f event w after
  forward-Done charge gate spared priced = charge-Done gate spared priced
  forward-Done reserve gate spared priced = reserve-Done gate spared
  forward-Done ship gate spared priced = ship-Done gate spared

  -- A step whose gate raises, raises the same.
  pub forward-Fails_early :
      (f : Forward) {e : Raised SagaError}
      → Fails (Shows d k) (maybe_inject_transient d host (str k) (step_name f) event) w e after
      → Fails (Shows d k) (forward d host f event) w e after
  unfolding forward charge_payment reserve_inventory schedule_shipment
  forward-Fails_early charge gate = addressed-Fails d host event a w _ (Fails-first _ _ w gate)
  forward-Fails_early reserve gate = addressed-Fails d host event a w _ (Fails-first _ _ w gate)
  forward-Fails_early ship gate = addressed-Fails d host event a w _ (Fails-first _ _ w gate)

  -- A forward step after create_order whose transient gate lets it pass and which fail_at names
  -- raises the business error, with the state as the gate left it and nothing recorded.
  pub forward-Fails_injected :
      (f : Forward)
      → Ends (Shows d k) (maybe_inject_transient d host (str k) (step_name f) event) w tt after
      → fails_at event (step_name f) ≡ true
      → Fails (Shows d k) (forward d host f event) w (own saga_business_error) after
  unfolding forward charge_payment reserve_inventory schedule_shipment
  forward-Fails_injected charge gate hit =
      addressed-Fails d host event a w _
        (Fails-bind _ _ w gate λ h. Fails-first _ _ _ (Fails-raise_if _ _ _ hit h))
  forward-Fails_injected reserve gate hit =
      addressed-Fails d host event a w _
        (Fails-bind _ _ w gate λ h. Fails-first _ _ _ (Fails-raise_if _ _ _ hit h))
  forward-Fails_injected ship gate hit =
      addressed-Fails d host event a w _
        (Fails-bind _ _ w gate λ h. Fails-first _ _ _ (Fails-raise_if _ _ _ hit h))
