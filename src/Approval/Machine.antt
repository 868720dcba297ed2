-- ===== src/Approval/Machine.antt =====
-- statemachine.asl.json: how its first two states hand the request on.
pub mod Execution
pub mod Undecided
use aws_serverless_patterns.Prelude.{String, Option, ◌≡◌, some, none, refl}
use aws_serverless_patterns.Dynamo.{Dynamo}
use aws_serverless_patterns.Py.Value.{Fields, set, obj, field, get, end, str, get-set}
use aws_serverless_patterns.Py.Host.{Host, Environment, dict_get}
use aws_serverless_patterns.Approval.Handlers.{
  Event, Web, Task, prepare_request, send_approval_email,
}
use aws_serverless_patterns.Py.Exec.{◌>>=◌, or_raise, runtime_error, World, ok, err, own}
use aws_serverless_patterns.Approval.Services.{Services, approval_input_error}

-- `PrepareRequest`: its `ResultSelector` makes `{"request": payload}` of the task's payload, and its
-- `ResultPath` puts that under `request`.
unfoldable pub after_prepare : Fields → Fields → Fields
after_prepare input payload = set "request" (obj (field "request" (obj payload) end)) input

-- The payload of `RequestApproval`; `none` where the state has no `request`.
unfoldable pub approval_payload : String → String → Fields → Option Event
approval_payload token execution state = elim (get "request" state) [
  | none ↦ none
  | some request ↦ some (
      field "task_token" (str token)
        (field "request" request (field "execution" (str execution) end)))
]

module _ {T : Type 0} (d : Dynamo T) (host : Host) (env : Environment) (web : Web) where
  -- The two states, without their retries.
  unfoldable pub request_approval : String → String → Event → Task d host env web Fields
  request_approval token execution input = do
    payload ← prepare_request d host env web input
    event ← or_raise (approval_payload token execution (after_prepare input payload)) runtime_error
    send_approval_email d host env web event

  pub payload_lem :
      (token execution : String) (input payload : Fields)
      → approval_payload token execution (after_prepare input payload)
        ≡ some (
            field "task_token" (str token) (
              field "request"
                (obj (field "request" (obj payload) end))
                (field "execution" (str execution) end)))
  unfolding approval_payload after_prepare
  payload_lem token execution input payload =
      rw
        (
          get-set "request" "request" (obj (field "request" (obj payload) end)) input,
          approval_payload,
          after_prepare,
        )
        refl

  -- For every input for which prepare_request returns, RequestApproval, given the state that
  -- PrepareRequest leaves, raises ApprovalInputError, and changes nothing after prepare_request.
  pub request_approval-never_sends :
      (token execution : String) (input payload : Fields) (w w' : World (Services T))
      → prepare_request d host env web input w ≡ (ok payload, w')
      → request_approval token execution input w ≡ (err (own approval_input_error), w')
  unfolding request_approval ◌>>=◌ send_approval_email get dict_get
  request_approval-never_sends token execution input payload w w' found =
      rw (found, payload_lem token execution input payload) refl
