-- ===== src/Approval/Machine/Undecided.antt =====
-- No execution decides anything: what RequestApproval hands on has no id of a request.
use aws_serverless_patterns.Prelude.{String, true, Option, some, ◌≡◌, refl, ◌∙◌, sym, ap}
use aws_serverless_patterns.Dynamo.{Dynamo}
use aws_serverless_patterns.Py.Value.{Fields, obj, field, get, end, str}
use aws_serverless_patterns.Py.Host.{Host, Environment, dict_get}
use aws_serverless_patterns.Py.Exec.{◌>>=◌, World, ok, err, own}
use aws_serverless_patterns.Py.Triple.{err-ne-ok}
use aws_serverless_patterns.Approval.Services.{Services, approval_input_error}
use aws_serverless_patterns.Approval.Handlers.{Event, Web, send_approval_email}
use aws_serverless_patterns.Approval.Machine.{after_prepare, approval_payload, payload_lem}
use aws_serverless_patterns.Approval.Machine.Execution.{
  State, prepare_request, request_approval, awaiting_decision, record_approval, handle_rejection,
  approved, rejected, approval_timed_out, approval_error, request_invalid, aborted, Execution, Step,
  Reach, undecided,
}
use mathlib.Core.Path.{subst, subst⁻¹}

abbrev payload_or : Fields → Option Fields → Fields
payload_or default (some x) = x
payload_or default v = default

some-injective : {x y : Fields} → ◌≡◌ {A = Option Fields} (some x) (some y) → x ≡ y
some-injective {x = x} e = ap (payload_or x) e

record IsHandedOn (event : Event) : Type 0 where
  input : Event
  made : Fields
  is : event ≡ after_prepare input made

abbrev Stage : State → Event → Type 0
Stage request_approval event = IsHandedOn event
Stage awaiting_decision event = ⊥
Stage record_approval event = ⊥
Stage handle_rejection event = ⊥
Stage approved event = ⊥
Stage rejected event = ⊥
Stage state event = Unit {0}

Stage-undecided : (state : State) (event : Event) → Stage state event → undecided state ≡ true
Stage-undecided prepare_request event h = refl
Stage-undecided request_approval event h = refl
Stage-undecided awaiting_decision event h = absurd h
Stage-undecided record_approval event h = absurd h
Stage-undecided handle_rejection event h = absurd h
Stage-undecided approved event h = absurd h
Stage-undecided rejected event h = absurd h
Stage-undecided approval_timed_out event h = refl
Stage-undecided approval_error event h = refl
Stage-undecided request_invalid event h = refl
Stage-undecided aborted event h = refl

module _ {T : Type 0} (d : Dynamo T) (host : Host) (env : Environment) (web : Web) where
  -- The request that it hands on is inside another one.
  refuses :
      (token execution : String) (input made : Fields) (w : World (Services T))
      → send_approval_email d host env web
          (field "task_token" (str token) (
            field "request"
              (obj (field "request" (obj made) end))
              (field "execution" (str execution) end)))
          w
        ≡ (err (own approval_input_error), w)
  unfolding send_approval_email ◌>>=◌ get dict_get
  refuses token execution input made w = refl

  never_asked :
      {C : Type 0} (token execution : String) (payload r : Fields) (event : Event)
      (w : World (Services T))
      → IsHandedOn event
      → approval_payload token execution event ≡ some payload
      → (send_approval_email d host env web payload w).0 ≡ ok r
      → C
  never_asked token execution payload r event w h handed returned =
      let found =
        sym (payload_lem d host env web token execution h.input h.made)
        ∙ ap (approval_payload token execution) (sym h.is)
        ∙ handed in
      err-ne-ok (
        sym (ap (λ x. x.0) (refuses token execution h.input h.made w))
        ∙ ap (λ x. (send_approval_email d host env web x w).0) (some-injective found)
        ∙ returned)

  abbrev Holds : Execution T → Type 0
  Holds e = Stage e.state e.event

  in_state : {state : State} (e : Execution T) → e.state ≡ state → Holds e → Stage state e.event
  in_state e s h = subst (λ x. Stage x e.event) s h

  Step-Holds : {e e' : Execution T} → Step d host env web e e' → Holds e → Holds e'
  Step-Holds {e} (Step.prepared r s returned is) h =
      subst⁻¹ Holds is (record { input = e.event; made = r; is = refl })
  Step-Holds {e} (Step.prepare_again s is) h = subst⁻¹ Holds is h
  Step-Holds {e} (Step.refuse fault s is) h = subst⁻¹ Holds is tt
  Step-Holds {e} (Step.ask token execution payload r s handed returned is) h =
      never_asked token execution payload r e.event e.world (in_state e s h) handed returned
  Step-Holds {e} (Step.ask_in_vain token execution payload fault s handed is) h =
      subst⁻¹ Holds is tt
  Step-Holds {e} (Step.approve decision s is) h = absurd (in_state e s h)
  Step-Holds {e} (Step.reject decision s is) h = absurd (in_state e s h)
  Step-Holds {e} (Step.break_off fault s is) h = absurd (in_state e s h)
  Step-Holds {e} (Step.time_out fault s is) h = absurd (in_state e s h)
  Step-Holds {e} (Step.note_approval r s returned is) h = absurd (in_state e s h)
  Step-Holds {e} (Step.note_rejection r s returned is) h = absurd (in_state e s h)
  Step-Holds {e} (Step.elsewhere w is) h = subst⁻¹ Holds is h
  Step-Holds {e} (Step.expire is) h = subst⁻¹ Holds is tt

  Reach-Holds :
      {input : Event} {w : World (Services T)} {e : Execution T}
      → Reach d host env web input w e
      → Holds e
  Reach-Holds Reach.begin = tt
  Reach-Holds (Reach.later path step) = Step-Holds step (Reach-Holds path)

  -- No execution of the state machine, from any input and any services, while the services may
  -- change in any way between its steps, comes to a state that waits for a decision, records one,
  -- or is Approved or Rejected.
  pub Reach-undecided :
      {input : Event} {w : World (Services T)} (e : Execution T)
      → Reach d host env web input w e
      → undecided e.state ≡ true
  Reach-undecided e path = Stage-undecided e.state e.event (Reach-Holds path)
