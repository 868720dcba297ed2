-- ===== src/Approval/Outcome/Reports.antt =====
-- What the followed link told the execution comes back in the outcome tasks.
use aws_serverless_patterns.Approval.Outcome.{on_rejected, nested, detail_of}
use aws_serverless_patterns.Py.Host.{dict_get}
use aws_serverless_patterns.Py.Value.{none_as_null, Fields, get, obj, field, str, end}
use aws_serverless_patterns.Approval.Handlers.{Web}
use aws_serverless_patterns.Prelude.{◌≡◌, some, String, refl}
use aws_serverless_patterns.Approval.Decision.{details, cause_of}
use aws_serverless_patterns.Py.Exec.{ok}
use aws_serverless_patterns.Py.Text.{take}

pub nested_lem :
    (event fields : Fields) (name key : String)
    → get name event ≡ some (obj fields)
    → nested event name key ≡ ok (get key fields)
unfolding dict_get get
nested_lem event end name key e = rw e
nested_lem event (field j v fs) name key e = rw e refl

-- The event of an outcome task: the request, and what Step Functions puts under `decision`.
pub record OutcomeEvent (event request decision : Fields) : Type 0 where
  pub asked : get "request" event ≡ some (obj request)
  pub told : get "decision" event ≡ some (obj decision)

-- If the cause is no longer than the cut, and loads gives back what dumps wrote for it,
-- on_rejected gives for the cause that a reject link sends the approver and the comment of the
-- link, and the id of the request.
pub on_rejected-reports :
    (web : Web) (event request decision : Fields) (approver decided_at comment : String)
    → OutcomeEvent event request decision
    → get "Cause" decision ≡ some (str (cause_of web approver decided_at comment))
    → take 32000 (web.dumps (details "rejected_by" approver decided_at comment))
      ≡ web.dumps (details "rejected_by" approver decided_at comment)
    → web.loads (web.dumps (details "rejected_by" approver decided_at comment))
      ≡ some (obj (details "rejected_by" approver decided_at comment))
    → on_rejected web event
      ≡ ok (
          field "request_id" (none_as_null (get "request_id" request)) (
            field "outcome"
              (str "REJECTED")
              (field "rejected_by" (str approver) (field "comment" (str comment) end))))
unfolding on_rejected get cause_of dict_get
on_rejected-reports web event request decision approver decided_at comment h cause short parses =
    let said = details "rejected_by" approver decided_at comment in
    let detail : detail_of web (some (str (web.dumps said))) ≡ obj said =
      rw (parses, detail_of) refl in
    rw (
      nested_lem event request "request" "request_id" h.asked,
      nested_lem event decision "decision" "Cause" h.told,
      cause,
      short,
      detail,
    )
