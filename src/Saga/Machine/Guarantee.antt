-- ===== src/Saga/Machine/Guarantee.antt =====
-- What the state machine guarantees where it ends: the saga is all done, or what was done is undone.
use aws_serverless_patterns.Prelude.{String, ◌≡◌, refl, ◌⊎◌, inl, inr, ◌∙◌, sym}
use aws_serverless_patterns.Py.Value.{get, get-set, str}
use aws_serverless_patterns.Py.Host.{Host}
use aws_serverless_patterns.Py.Exec.{World}
use aws_serverless_patterns.Dynamo.{Dynamo}
use aws_serverless_patterns.Saga.View.{Saga}
use aws_serverless_patterns.Saga.Gate.{Addressed}
use aws_serverless_patterns.Saga.Handlers.{Event, order_of}
use aws_serverless_patterns.Saga.Forward.{Forward, charge, reserve, ship}
use aws_serverless_patterns.Saga.Rollback.{Backward, release, refund, result_name}
use aws_serverless_patterns.Saga.Task.{invoke}
use aws_serverless_patterns.Saga.Machine.{State, completed, saga_failed, Execution, Step, Reach}
use aws_serverless_patterns.Saga.Machine.Data.{Lacks, slot, order-with_result, order-with_error}
use aws_serverless_patterns.Saga.Machine.Shown.{Showing-map}
use aws_serverless_patterns.Saga.Machine.Ledger.{Booked, Settled}
use aws_serverless_patterns.Saga.Machine.Stage.{
  Stage, InStatus, Untouched, Compensated, Shipped, repeat_lem, elsewhere_lem,
}
use aws_serverless_patterns.Saga.Machine.Advance.{advance, caught}
use mathlib.Core.Path.{subst, subst⁻¹}
use aws_serverless_patterns.Saga.Frame.{invoke-frame, order_key_lem}

-- An event with the same order is addressed alike.
Addressed-keep :
    {event event' : Event} {k : String}
    → get "order" event' ≡ get "order" event
    → Addressed event k
    → Addressed event' k
unfolding order_of
Addressed-keep same a = record {
  order = a.order;
  valid = rw same a.valid;
  keyed = a.keyed;
  named = a.named;
}

module _ {T : Type 0} (d : Dynamo T) (k : String) where
  -- What holds of an execution, whatever steps led to it.
  record Sound (e : Execution T) : Type 0 where
    addressed : Addressed e.event k
    stage : Stage d k e.state e.event e.world.cloud

  -- Nothing was charged or reserved, as far as the results tell; or the saga has failed, and what
  -- they hold is undone.
  abbrev pub RolledBack : Event → T → Type 0
  RolledBack event t =
      ((b : Backward) → Lacks (result_name b) event)
      ⊎ InStatus d k "FAILED" (λ saga. (b : Backward) → Settled b event saga) t

  abbrev pub Finished : Event → T → Type 0
  Finished event t = InStatus d k "COMPLETED" (λ saga. (f : Forward) → Booked f event saga) t

module _ {T : Type 0} (d : Dynamo T) (host : Host) (k : String) where
  in_state :
      {state : State} {e : Execution T}
      → e.state ≡ state
      → Sound d k e
      → Stage d k state e.event e.world.cloud
  in_state {e = e} s h = subst (λ x. Stage d k x e.event e.world.cloud) s h.stage

  Step-Sound : {e e' : Execution T} → Step d host e e' → Sound d k e → Sound d k e'
  unfolding slot get
  Step-Sound {e} (Step.initialize s is) h = subst⁻¹ (Sound d k) is (record {
    addressed = Addressed-keep (rw get-set refl) h.addressed;
    stage = (rw get-set refl, rw get-set refl);
  })
  Step-Sound {e} (Step.succeed task r s returned is) h = subst⁻¹ (Sound d k) is (record {
    addressed = Addressed-keep (order-with_result task r e.event) h.addressed;
    stage = advance d host e.event h.addressed e.world r task (in_state s h) returned;
  })
  Step-Sound {e} (Step.repeat task s is) h = subst⁻¹ (Sound d k) is (record {
    addressed = h.addressed;
    stage =
        subst⁻¹ (λ x. Stage d k x e.event (invoke d host task e.event e.world).1.cloud) s
          (repeat_lem d host e.event h.addressed e.world task (in_state s h));
  })
  Step-Sound {e} (Step.give_up task fault s is) h = subst⁻¹ (Sound d k) is (record {
    addressed = Addressed-keep (order-with_error task fault e.event) h.addressed;
    stage =
        caught d k fault e.event _ task
          (repeat_lem d host e.event h.addressed e.world task (in_state s h));
  })
  Step-Sound {e} (Step.elsewhere task event other is) h = subst⁻¹ (Sound d k) is (record {
    addressed = h.addressed;
    stage =
        elsewhere_lem d k e.event
          (invoke-frame d host task event k e.world (λ meets. other (
            meets
            ∙ sym (
                order_key_lem e.event h.addressed.order (str k) h.addressed.valid
                  h.addressed.keyed))))
          e.state h.stage;
  })
  Step-Sound {e} (Step.expire is) h =
      subst⁻¹ (Sound d k) is (record { addressed = h.addressed; stage = tt })

  Reach-Sound :
      {input : Event} {w : World T} {e : Execution T}
      → Addressed input k
      → Reach d host input w e
      → Sound d k e
  Reach-Sound a Reach.begin = record { addressed = a; stage = tt }
  Reach-Sound a (Reach.later path step) = Step-Sound step (Reach-Sound a path)

  module _ {input : Event} {w : World T} (e : Execution T) (a : Addressed input k)
      (path : Reach d host input w e) where
    untouched : Untouched e.event → (b : Backward) → Lacks (result_name b) e.event
    untouched h release = h.1
    untouched h refund = h.0

    settled : {saga : Saga} → Compensated e.event saga → (b : Backward) → Settled b e.event saga
    settled h release = h.1
    settled h refund = h.0

    booked : {saga : Saga} → Shipped e.event saga → (f : Forward) → Booked f e.event saga
    booked h charge = h.0
    booked h reserve = h.1
    booked h ship = h.2

    -- In every execution of the state machine, from an input addressed to an order and a table
    -- that may hold anything, whose tasks may be repeated or given up after any call, while other
    -- executions for other orders run between its steps: where it stands in SagaFailed, either its
    -- results hold neither a payment nor a reservation, or the item of the order shows the status
    -- FAILED, and each of the two is absent from the results or its compensation is recorded as
    -- DONE with the very id that the results hold.
    pub saga_failed-RolledBack : e.state ≡ saga_failed → RolledBack d k e.event e.world.cloud
    saga_failed-RolledBack s = elim (in_state s (Reach-Sound a path)) [
      | inl h ↦ inl (untouched h)
      | inr h ↦ inr (Showing-map (λ saga f. (f.0, settled f.1)) h)
    ]

    -- In every execution of the state machine, from an input addressed to an order and a table
    -- that may hold anything, whose tasks may be repeated or given up after any call, while other
    -- executions for other orders run between its steps: where it has completed, the item of the
    -- order shows the status COMPLETED, and payment, reservation and shipment are each recorded as
    -- DONE with the very id, not empty, that the results hold.
    pub completed-Finished : e.state ≡ completed → Finished d k e.event e.world.cloud
    completed-Finished s =
        Showing-map (λ saga f. (f.0, booked f.1)) (in_state s (Reach-Sound a path))
