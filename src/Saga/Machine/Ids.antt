-- ===== src/Saga/Machine/Ids.antt =====
-- What a forward step leaves where it returns: its id in the result, and recorded in the item.
use aws_serverless_patterns.Prelude.{String, some, false, ◌≡◌, refl, ◌==◌, eq_refl}
use aws_serverless_patterns.Py.Value.{Value, Fields, field, end, str, get}
use aws_serverless_patterns.Py.Host.{Host, subscript}
use aws_serverless_patterns.Py.Exec.{Exec, lift, ◌>>=◌, ◌>>◌, draw_id, raise_if, pure, own}
use aws_serverless_patterns.Py.Keeps.{
  Keeps-lift, Keeps-raise_if, Keeps-bind, Keeps-draw_id, Keeps-pure,
}
use aws_serverless_patterns.Py.Triple.{Triple, Triple-pure, Triple-bind, Triple-keep, ok-injective}
use aws_serverless_patterns.Dynamo.{Dynamo}
use aws_serverless_patterns.Saga.Handlers.{
  Event, new_id, maybe_inject_transient, charge_payment, reserve_inventory, schedule_shipment,
  fails_at, order_of,
}
use aws_serverless_patterns.Saga.Forward.{
  Forward, charge, reserve, ship, step_name, id_name, forward,
}
use aws_serverless_patterns.Saga.Gate.{Addressed}
use aws_serverless_patterns.Saga.View.{Saga}
use aws_serverless_patterns.Saga.Store.{record_step}
use aws_serverless_patterns.Saga.Machine.Shown.{
  Showing, IsStable, record_step-Showing, maybe_inject_transient-Keeps, id_plain,
}
use Prim.Native.Char.{Char}
use Prim.Native.String.{◌++◌ as concat, ◌∷◌}
use Prim.Native.String.append.{cons}
use Prim.Native.String.compare.{cons-nil}
use mathlib.Core.Path.{subst}
use aws_serverless_patterns.Saga.Errors.{SagaError, saga_business_error}

-- The saga has the step done, with this id.
abbrev pub Recorded : String → String → String → Saga → Type 0
Recorded step id_field id saga =
    saga.outcome step ≡ some (record { status = "DONE"; detail = field id_field (str id) end })

-- The result of a forward step, with what it recorded over the facts that held before.
pub record Given {T : Type 0} (d : Dynamo T) (k : String) (F : Saga → Type 0) (f : Forward)
    (r : Fields) (t : T) : Type 0 where
  pub id : String
  pub names : get (id_name f) r ≡ some (str id)
  pub real : (id == "") ≡ false
  pub showing : Showing d k (λ saga. F saga × Recorded (step_name f) (id_name f) id saga) t

-- A text with a character in front is not empty.
prefixed : (c : Char) (s t : String) → (concat (c ∷ s) t == "") ≡ false
prefixed c s t = rw (cons c s t, cons-nil c (concat s t)) refl

-- A new id, while the facts hold.
abbrev Drawn : {T : Type 0} → (T → Type 0) → String → T → Type 0
Drawn P id t = ((id == "") ≡ false) × P t

module _ {T : Type 0} (d : Dynamo T) (host : Host) where
  drawn :
      {P : T → Type 0} (c : Char) (prefix : String)
      → Triple P (new_id d host (c ∷ prefix)) (Drawn P)
  unfolding draw_id ◌>>=◌ pure
  drawn {P} c prefix = record {
    at = λ w id h e.
        subst (λ x. Drawn P x w.cloud) (ok-injective e)
          (prefixed c prefix (concat "-" (host.uuid w.ids)), h);
  }

module _ {T : Type 0} (d : Dynamo T) (host : Host) {k : String} (event : Event)
    (a : Addressed event k) where
  pub addressed-Triple :
      {A : Type 0} {P : T → Type 0} {Q : A → T → Type 0} (f : Fields → Value → Exec SagaError T A)
      → Triple P (f a.order (str k)) Q
      → Triple P
          (lift (order_of event) >>= λ order.
            lift (subscript order "order_id") >>= λ key. f order key)
          Q
  unfolding ◌>>=◌
  addressed-Triple f body = record { at = λ w b h. rw (a.valid, a.keyed) (body.at w b h) }

  module _ {F : Saga → Type 0} (f : Forward) (stable : IsStable F (step_name f)) where
    gate :
        Triple
          (Showing d k F)
          (maybe_inject_transient d host (str k) (step_name f) event)
          (λ _. Showing d k F)
    gate =
        Triple-keep _
          (maybe_inject_transient-Keeps d host k a.named stable.counting (step_name f) event)

    -- The record of the id, and the return of a result that holds it.
    noted_id :
        (id : String) (r : Fields)
        → get (id_name f) r ≡ some (str id)
        → Triple
            (Drawn (Showing d k F) id)
            (record_step d host (str k) (step_name f) "DONE" (field (id_name f) (str id) end)
              >> pure r)
            (Given d k F f)
    noted_id id r names =
        Triple-bind
          {R = λ _.
            Drawn (Showing d k (λ saga. F saga × Recorded (step_name f) (id_name f) id saga)) id}
          _ _
          (record {
            at = λ w _ h e. (
              h.0,
              record_step-Showing d host k a.named (step_name f) "DONE" _ (id_plain (id_name f) id)
                  (λ saga fact. (stable.noting _ saga fact, rw eq_refl refl)) w h.1,
            );
          })
          λ _. Triple-pure r λ t h. record { id = id; names = names; real = h.0; showing = h.1 }

    spared :
        Triple
          (Showing d k F)
          (raise_if (fails_at event (step_name f)) (own saga_business_error))
          (λ _. Showing d k F)
    spared = Triple-keep _ (Keeps-raise_if _ _)

  pub forward-Given :
      {F : Saga → Type 0} (f : Forward)
      → IsStable F (step_name f)
      → Triple (Showing d k F) (forward d host f event) (Given d k F f)
  unfolding forward charge_payment reserve_inventory schedule_shipment get
  forward-Given charge stable = addressed-Triple _ (
      Triple-bind _ _ (gate charge stable) λ _. Triple-bind _ _ (spared charge stable) λ _.
        Triple-bind _ _ (drawn d host "p" "ay") λ id.
          Triple-bind _ _ (Triple-keep _ (Keeps-lift _)) λ _. noted_id charge stable id _ refl)
  forward-Given reserve stable = addressed-Triple _ (
      Triple-bind _ _ (gate reserve stable) λ _.
        Triple-bind _ _ (spared reserve stable)
          λ _. Triple-bind _ _ (drawn d host "r" "sv") λ id. noted_id reserve stable id _ refl)
  forward-Given ship stable = addressed-Triple _ (
      Triple-bind _ _ (gate ship stable) λ _. Triple-bind _ _ (spared ship stable) λ _.
        Triple-bind _ _ (drawn d host "s" "hp") λ id.
          Triple-bind _ _ (Triple-keep _ (Keeps-bind _ _ (Keeps-draw_id _) λ hex. Keeps-pure _))
            λ _. noted_id ship stable id _ refl)
