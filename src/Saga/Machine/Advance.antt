-- ===== src/Saga/Machine/Advance.antt =====
-- From state to state: a task that returned, and one that is given up.
use aws_serverless_patterns.Prelude.{String, ◌≡◌, ◌∙◌, refl, inl, inr, if◌then◌else◌, ◌==◌, some}
use aws_serverless_patterns.Py.Value.{Fields, obj}
use aws_serverless_patterns.Py.Host.{Host}
use aws_serverless_patterns.Py.Exec.{World, ok}
use aws_serverless_patterns.Dynamo.{Dynamo}
use aws_serverless_patterns.Saga.Gate.{Addressed}
use aws_serverless_patterns.Saga.Handlers.{Event}
use aws_serverless_patterns.Saga.Forward.{charge, reserve, ship, forward}
use aws_serverless_patterns.Saga.Rollback.{release, refund, backward}
use aws_serverless_patterns.Saga.Task.{
  Task, create_order, charge_payment, reserve_inventory, schedule_shipment, complete_saga,
  release_inventory, refund_payment, cancel_order, mark_failed, invoke,
}
use aws_serverless_patterns.Saga.Machine.{
  running, next_of, caught_by, with_result, with_error, set_in,
}
use aws_serverless_patterns.Saga.Machine.Data.{
  slot, slot-set_in, slot-compensation, slot-with_error, Holds-keep,
}
use aws_serverless_patterns.Saga.Machine.Shown.{Showing-map}
use aws_serverless_patterns.Saga.Machine.Ids.{forward-Given}
use aws_serverless_patterns.Saga.Machine.Ledger.{Booked-keep, Settled-keep, Holds-set_in}
use aws_serverless_patterns.Saga.Machine.Undone.{
  create_order-Showing, backward-Showing, cancel_order-Showing, complete_saga-Showing,
  mark_failed-Showing,
}
use aws_serverless_patterns.Saga.Machine.Stage.{
  Stage, charge-IsStable, reserve-IsStable, ship-IsStable,
}

module _ {T : Type 0} (d : Dynamo T) (k : String) (fault : Fields) (event : Event) (t : T) where
  -- What a task's state knows is enough for the state of its `Catch` rule.
  pub caught :
      (task : Task)
      → Stage d k (running task) event t
      → Stage d k (caught_by task) (with_error task fault event) t
  caught create_order h =
      let same = slot-with_error create_order fault event in
      inl (same "payment" ∙ h.0, same "reservation" ∙ h.1)
  caught charge_payment h =
      let same = slot-with_error charge_payment fault event in
      Showing-map (λ saga f. (inl (same "payment" ∙ f.0), inl (same "reservation" ∙ f.1))) h
  caught reserve_inventory h =
      let same = slot-with_error reserve_inventory fault event in
      Showing-map
        (λ saga f. (Booked-keep (same "payment") refl f.0, inl (same "reservation" ∙ f.1))) h
  caught schedule_shipment h =
      let same = slot-with_error schedule_shipment fault event in
      Showing-map
        (λ saga f.
          (Booked-keep (same "payment") refl f.0, Booked-keep (same "reservation") refl f.1))
        h
  caught _ h = tt

module _ {T : Type 0} (d : Dynamo T) (host : Host) {k : String} (event : Event)
    (a : Addressed event k) (w : World T) (r : Fields) where
  other :
      (name l : String)
      → slot l (set_in "results" name (obj r) event)
        ≡ (if name == l then some (obj r) else slot l event)
  other name l = slot-set_in l name (obj r) event

  pub advance :
      (task : Task)
      → Stage d k (running task) event w.cloud
      → (invoke d host task event w).0 ≡ ok r
      → Stage d k (next_of task) (with_result task r event) (invoke d host task event w).1.cloud
  unfolding invoke forward backward
  advance create_order h e =
      Showing-map (λ saga f. (other "order" "payment" ∙ h.0, other "order" "reservation" ∙ h.1))
        ((create_order-Showing d host event a).at w r tt e)
  advance charge_payment h e =
      let g = (forward-Given d host event a charge (charge-IsStable event)).at w r h e in
      Showing-map
        (λ saga f. (
          record {
            id = g.id;
            held = Holds-set_in "payment" "payment_id" r event g.names g.real;
            recorded = f.1;
          },
          other "payment" "reservation" ∙ f.0.1,
        ))
        g.showing
  advance reserve_inventory h e =
      let g = (forward-Given d host event a reserve (reserve-IsStable event)).at w r h e in
      Showing-map
        (λ saga f. (
          Booked-keep (other "reservation" "payment") refl f.0.0,
          record {
            id = g.id;
            held = Holds-set_in "reservation" "reservation_id" r event g.names g.real;
            recorded = f.1;
          },
        ))
        g.showing
  advance schedule_shipment h e =
      let g = (forward-Given d host event a ship (ship-IsStable event)).at w r h e in
      Showing-map
        (λ saga f. (
          Booked-keep (other "shipment" "payment") refl f.0.0,
          Booked-keep (other "shipment" "reservation") refl f.0.1,
          record {
            id = g.id;
            held = Holds-set_in "shipment" "shipment_id" r event g.names g.real;
            recorded = f.1;
          },
        ))
        g.showing
  advance complete_saga h e = complete_saga-Showing d host event a w h λ saga f. (
    refl,
    (
      Booked-keep (other "completion" "payment") refl f.0,
      Booked-keep (other "completion" "reservation") refl f.1,
      Booked-keep (other "completion" "shipment") refl f.2,
    ),
  )
  advance release_inventory h e =
      let same = λ (l : String). slot-compensation l "release_inventory" (obj r) event in
      let made = h.fact.1.held in
      backward-Showing d host event a w h release made λ saga f. (
        Booked-keep (same "payment") refl f.0,
        inr (record {
          id = h.fact.1.id;
          held = Holds-keep (same "reservation") made;
          recorded = refl;
        }),
      )
  advance refund_payment h e =
      let same = λ (l : String). slot-compensation l "refund_payment" (obj r) event in
      let made = h.fact.0.held in
      backward-Showing d host event a w h refund made λ saga f. (
        inr (record { id = h.fact.0.id; held = Holds-keep (same "payment") made; recorded = refl }),
        Settled-keep (same "reservation") refl f.1,
      )
  advance cancel_order h e =
      let same = λ (l : String). slot-compensation l "cancel_order" (obj r) event in
      inr (
        cancel_order-Showing d host event a w h λ saga f.
          (Settled-keep (same "payment") refl f.0, Settled-keep (same "reservation") refl f.1))
  advance mark_failed (inl h) e =
      inl (other "mark_failed" "payment" ∙ h.0, other "mark_failed" "reservation" ∙ h.1)
  advance mark_failed (inr h) e = inr (
      mark_failed-Showing d host event a w h λ saga f. (
        refl,
        (
          Settled-keep (other "mark_failed" "payment") refl f.0,
          Settled-keep (other "mark_failed" "reservation") refl f.1,
        ),
      ))
