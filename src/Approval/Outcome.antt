-- ===== src/Approval/Outcome.antt =====
-- handlers.py: `on_approved` and `on_rejected`, which write nothing, since the decision was recorded
-- where the link was followed.
pub mod Reports
use aws_serverless_patterns.Prelude.{String, Option, none, some}
use aws_serverless_patterns.Py.Value.{
  none_as_null, Value, str, obj, Fields, end, field, get, or_else,
}
use aws_serverless_patterns.Py.Host.{dict_get}
use aws_serverless_patterns.Py.Exec.{Result, ok, Raised}
use aws_serverless_patterns.Py.Fallible.{◌>>=◌}
use aws_serverless_patterns.Approval.Services.{ApprovalError}
use aws_serverless_patterns.Approval.Handlers.{Event, Web}

-- `(event.get(name) or {}).get(key)`
abbrev pub nested : Event → String → String → Result (Raised ApprovalError) (Option Value)
nested event name key = dict_get (or_else (get name event) (obj end)) key

unfoldable pub on_approved : Event → Result (Raised ApprovalError) Fields
on_approved event = do
  request_id ← nested event "request" "request_id"
  approved_by ← nested event "decision" "approved_by"
  decided_at ← nested event "decision" "decided_at"
  ok (
      field "request_id" (none_as_null request_id) (
        field "outcome" (str "APPROVED") (
          field "approved_by" (none_as_null approved_by)
            (field "decided_at" (none_as_null decided_at) end))))

-- A cause that is no JSON is taken for the comment; a cause that is no text says nothing.
abbrev pub detail_of : Web → Option Value → Value
detail_of web (some (str cause)) = elim (web.loads cause) [
  | none ↦ obj (field "comment" (str cause) end)
  | some detail ↦ detail
]
detail_of web v = obj end

unfoldable pub on_rejected : Web → Event → Result (Raised ApprovalError) Fields
on_rejected web event = do
  request_id ← nested event "request" "request_id"
  cause ← nested event "decision" "Cause"
  rejected_by ← dict_get (detail_of web cause) "rejected_by"
  comment ← dict_get (detail_of web cause) "comment"
  ok (
      field "request_id" (none_as_null request_id) (
        field "outcome" (str "REJECTED") (
          field "rejected_by" (none_as_null rejected_by)
            (field "comment" (none_as_null comment) end))))
