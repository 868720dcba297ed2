-- ===== src/Approval/Machine/Execution.antt =====
-- statemachine.asl.json: an execution as steps of its states. Between its steps the world may
-- change in any way: other executions run, and people follow links.
use aws_serverless_patterns.Prelude.{String, Bool, true, false, some, ◌≡◌}
use aws_serverless_patterns.Dynamo.{Dynamo}
use aws_serverless_patterns.Py.Value.{Value, Fields, set, obj, field, end}
use aws_serverless_patterns.Py.Host.{Host, Environment}
use aws_serverless_patterns.Py.Exec.{World, ok}
use aws_serverless_patterns.Approval.Services.{Services}
use aws_serverless_patterns.Approval.Handlers.{Event, Web}
use aws_serverless_patterns.Approval.Handlers
use aws_serverless_patterns.Approval.Outcome.{on_approved, on_rejected}
use aws_serverless_patterns.Approval.Machine.{after_prepare, approval_payload}

-- RequestApproval is `request_approval` while its function runs, and then waits for the callback.
pub data State : Type 0 where
  prepare_request request_approval awaiting_decision record_approval handle_rejection : State
  approved rejected approval_timed_out approval_error request_invalid aborted : State

pub record Execution (T : Type 0) : Type 0 where
  pub state : State
  pub event : Event
  pub world : World (Services T)

-- `"ResultSelector": { "result.$": "$.Payload" }, "ResultPath": "$.result"`
abbrev pub after_decision : Fields → Event → Event
after_decision r event = set "result" (obj (field "result" (obj r) end)) event

module _ {T : Type 0} (d : Dynamo T) (host : Host) (env : Environment) (web : Web) where
  abbrev pub prepares : Execution T → World (Services T)
  prepares e = (Handlers.prepare_request d host env web e.event e.world).1

  abbrev pub asks : Event → Execution T → World (Services T)
  asks payload e = (Handlers.send_approval_email d host env web payload e.world).1

  pub data Step (e e' : Execution T) : Type 0 where
    prepared :
        (r : Fields)
        → e.state ≡ prepare_request
        → (Handlers.prepare_request d host env web e.event e.world).0 ≡ ok r
        → e'
          ≡ record { state = request_approval; event = after_prepare e.event r; world = prepares e }
        → Step e e'
    prepare_again : e.state ≡ prepare_request → e' ≡ record e { world = prepares e } → Step e e'
    refuse :
        (fault : Fields)
        → e.state ≡ prepare_request
        → e' ≡ record {
          state = request_invalid;
          event = set "error" (obj fault) e.event;
          world = prepares e;
        }
        → Step e e'
    ask :
        (token execution : String) (payload : Event) (r : Fields)
        → e.state ≡ request_approval
        → approval_payload token execution e.event ≡ some payload
        → (Handlers.send_approval_email d host env web payload e.world).0 ≡ ok r
        → e' ≡ record e { state = awaiting_decision; world = asks payload e }
        → Step e e'
    ask_in_vain :
        (token execution : String) (payload : Event) (fault : Fields)
        → e.state ≡ request_approval
        → approval_payload token execution e.event ≡ some payload
        → e' ≡ record {
          state = approval_error;
          event = set "error" (obj fault) e.event;
          world = asks payload e;
        }
        → Step e e'
    -- SendTaskSuccess, SendTaskFailure with `ApprovalRejected` and with another error, or neither
    approve :
        (decision : Value)
        → e.state ≡ awaiting_decision
        → e' ≡ record e { state = record_approval; event = set "decision" decision e.event }
        → Step e e'
    reject :
        (decision : Value)
        → e.state ≡ awaiting_decision
        → e' ≡ record e { state = handle_rejection; event = set "decision" decision e.event }
        → Step e e'
    break_off :
        (fault : Fields)
        → e.state ≡ awaiting_decision
        → e' ≡ record e { state = approval_error; event = set "error" (obj fault) e.event }
        → Step e e'
    time_out :
        (fault : Fields)
        → e.state ≡ awaiting_decision
        → e' ≡ record e { state = approval_timed_out; event = set "error" (obj fault) e.event }
        → Step e e'
    note_approval :
        (r : Fields)
        → e.state ≡ record_approval
        → on_approved e.event ≡ ok r
        → e' ≡ record e { state = approved; event = after_decision r e.event }
        → Step e e'
    note_rejection :
        (r : Fields)
        → e.state ≡ handle_rejection
        → on_rejected web e.event ≡ ok r
        → e' ≡ record e { state = rejected; event = after_decision r e.event }
        → Step e e'
    elsewhere : (w : World (Services T)) → e' ≡ record e { world = w } → Step e e'
    expire : e' ≡ record e { state = aborted } → Step e e'

  pub data Reach (input : Event) (w : World (Services T)) : Execution T → Type 0 where
    begin : Reach input w (record { state = prepare_request; event = input; world = w })
    later : {e e' : Execution T} → Reach input w e → Step e e' → Reach input w e'

-- Nobody is waited for, and nothing is decided.
abbrev pub undecided : State → Bool
undecided awaiting_decision = false
undecided record_approval = false
undecided handle_rejection = false
undecided approved = false
undecided rejected = false
undecided state = true
