-- ===== src/Approval/Decision.antt =====
-- handlers.py: `decision_handler`, the target of the approve and reject links.
pub mod Records
pub mod Contract
pub mod Choice
pub mod Refines
pub mod Links
pub mod Settles
use Prim.Native.String.{◌++◌ as concat}
use aws_serverless_patterns.Prelude.{
  ℕ, String, Bool, not, ◌&&◌, ◌||◌, Option, none, some, ◌==◌, if◌then◌else◌,
}
use aws_serverless_patterns.Py.Value.{Value, str, Fields, end, field, is_text}
use aws_serverless_patterns.Py.Host.{Host}
use aws_serverless_patterns.Py.Text.{text_or, ends_with, take, escape}
use aws_serverless_patterns.Py.Exec.{Raised, own, Exec, pure, raise, read_clock, catch, ◌>>=◌, ◌>>◌}
use aws_serverless_patterns.Dynamo.{Dynamo, Item}
use aws_serverless_patterns.Approval.Services.{
  ApprovalError, already_decided, task_timed_out, task_does_not_exist, Callback, task_success,
  task_failure, Services, on_table, send,
}
use aws_serverless_patterns.Approval.Store.{get_record, record_decision}
use aws_serverless_patterns.Approval.Handlers.{Web}

-- The event of an HTTP API, with its query's parameters.
pub record Request : Type 0 where
  pub raw_path : Option String
  pub query : String → Option String

pub record Response : Type 0 where
  pub status_code : ℕ
  pub content_type : String
  pub body : String

unfoldable pub html_response : ℕ → String → String → Response
html_response status_code title message = record {
  status_code = status_code;
  content_type = "text/html; charset=utf-8";
  body =
      concat
        "<!doctype html><html><head><meta charset='utf-8'><meta name='viewport' content='width=device-width, initial-scale=1'><title>"
        (concat (escape title) (
          concat
            "</title></head><body style='font-family:system-ui,sans-serif;max-width:32rem;margin:4rem auto;text-align:center;color:#1f2937'><h1>"
            (concat (escape title) (
              concat "</h1><p>" (
                concat (escape message)
                  "</p><p style='color:#6b7280'>You can close this window.</p></body></html>")))));
}

abbrev pub invalid_link : Response
invalid_link = html_response 400 "Invalid link" "This approval link is malformed."

abbrev pub not_found : Response
not_found = html_response 404 "Not found" "No matching approval request was found."

abbrev pub was_decided : String → Response
was_decided status =
    html_response 409 "Already decided" (concat "This request was already " (concat status "."))

abbrev pub decided_meanwhile : Response
decided_meanwhile = html_response 409 "Already decided" "This request was already decided."

abbrev pub link_expired : Response
link_expired = html_response 410 "Link expired" "This approval link has expired."

abbrev pub not_awaited : Response
not_awaited =
    html_response 410 "Link expired" "This approval request is no longer awaiting a decision."

abbrev pub approved : Response
approved = html_response 200 "Approved" "Thank you — the request has been approved."

abbrev pub rejected : Response
rejected = html_response 200 "Rejected" "The request has been rejected."

unfoldable pub action_of : Host → Request → String
action_of host request =
    let path = text_or request.raw_path "" in
    if ends_with path "/approve"
    then "approve"
    else if ends_with path "/reject"
    then "reject"
    else host.lower (text_or (request.query "action") "")

abbrev pub is_action : String → Bool
is_action action = action == "approve" || action == "reject"

-- `not params.get(name)` is this, and the parameter is otherwise the text itself.
abbrev pub parameter : Request → String → String
parameter request name = text_or (request.query name) ""

abbrev pub is_malformed : Host → Request → Bool
is_malformed host request =
    not (is_action (action_of host request))
    || parameter request "request_id" == ""
    || parameter request "token" == ""

abbrev pub is_decided : Item → Bool
is_decided item = is_text (item "status") "APPROVED" || is_text (item "status") "REJECTED"

abbrev pub status_text : Option Value → String
status_text (some (str s)) = s
status_text v = ""

-- What approve and reject send along.
abbrev pub details : String → String → String → String → Fields
details name approver decided_at comment =
    field name (str approver)
      (field "decided_at" (str decided_at) (field "comment" (str comment) end))

unfoldable pub cause_of : Web → String → String → String → String
cause_of web approver decided_at comment =
    take 32000 (web.dumps (details "rejected_by" approver decided_at comment))

module _ {T : Type 0} (d : Dynamo T) (host : Host) (web : Web) where
  abbrev pub Answer : Type 0 → Type 0
  Answer A = Exec ApprovalError (Services T) A

  -- The body of the `try` block.
  abbrev pub resume : String → String → String → String → String → String → Answer Response
  resume action request_id token approver comment decided_at =
      if action == "approve"
      then (do
        send web.reply
            (task_success token (web.dumps (details "approved_by" approver decided_at comment)))
        record_decision (on_table d) host (str request_id) "APPROVED" approver comment
        pure approved)
      else (do
        send web.reply
            (task_failure token "ApprovalRejected" (cause_of web approver decided_at comment))
        record_decision (on_table d) host (str request_id) "REJECTED" approver comment
        pure rejected)

  -- The `except` clauses.
  abbrev pub answer_error : Raised ApprovalError → Answer Response
  answer_error (own already_decided) = pure decided_meanwhile
  answer_error (own task_timed_out) = pure link_expired
  answer_error (own task_does_not_exist) = pure not_awaited
  answer_error e = raise e

  abbrev pub decide : Request → Answer Response
  decide request = do
    now ← read_clock host.time
    catch
        (resume (action_of host request) (parameter request "request_id")
          (parameter request "token") (text_or (request.query "approver") "unknown")
          (text_or (request.query "comment") "") (web.iso now))
        answer_error

  abbrev pub on_record : Request → Option Item → Answer Response
  on_record request none = pure not_found
  on_record request (some item) =
      if is_decided item
      then pure (was_decided (host.lower (status_text (item "status"))))
      else decide request

  unfoldable pub decision_handler : Request → Answer Response
  decision_handler request = if is_malformed host request then pure invalid_link else (do
    found ← get_record (on_table d) host (str (parameter request "request_id"))
    on_record request found)
