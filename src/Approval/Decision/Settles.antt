-- ===== src/Approval/Decision/Settles.antt =====
-- handlers.py: `decision_handler`. What the approve link and the reject link each do to a request
-- that waits.
use mathlib.Core.Path.{subst}
use aws_serverless_patterns.Prelude.{String, ◌≡◌, refl, true, ◌++◌, ◌∷◌, [], ◌∙◌, ℕ, some, ap}
use aws_serverless_patterns.Py.Host.{Host}
use aws_serverless_patterns.Py.Exec.{World, Raised, ok, Result}
use aws_serverless_patterns.Py.Text.{text_or, take}
use aws_serverless_patterns.Dynamo.{Dynamo}
use aws_serverless_patterns.Approval.Services.{
  Services, Callback, ApprovalError, accepted, task_success, task_failure,
}
use aws_serverless_patterns.Approval.Handlers.{Web}
use aws_serverless_patterns.Approval.View.{Case, Stands}
use aws_serverless_patterns.Approval.Store.Decides.{is_open}
use aws_serverless_patterns.Approval.Decision.{
  Request, Response, decision_handler, parameter, details, approved, rejected, cause_of, action_of,
  ℕ, some, str,
}
use aws_serverless_patterns.Approval.Decision.Choice.{
  Choice, Chosen, approve, reject, choice_name, acts_lem, sound_choice,
}
use aws_serverless_patterns.Approval.Decision.Contract.{
  Answers, contract-accepted, call_of, thanks, resolved, logged,
}
use aws_serverless_patterns.Approval.Decision.Refines.{decision_handler-refines_contract}
use aws_serverless_patterns.Py.Value.{str}

abbrev pub status_of : Choice → String
status_of approve = "APPROVED"
status_of reject = "REJECTED"

abbrev pub page_of : Choice → Response
page_of approve = approved
page_of reject = rejected

abbrev pub evidence : String → Web → Request → String → String
evidence name web request at = web.dumps (
    details name (text_or (request.query "approver") "unknown") at
      (text_or (request.query "comment") ""))

-- An approval succeeds the task of the link's token, a rejection fails it.
abbrev pub callback_of : Choice → Web → Request → String → Callback
callback_of approve web request at =
    task_success (parameter request "token") (evidence "approved_by" web request at)
callback_of reject web request at =
    task_failure (parameter request "token") "ApprovalRejected"
      (take 32000 (evidence "rejected_by" web request at))

abbrev pub settled_case : Choice → Callback → Request → Case → Case
settled_case choice call request c = record {
  request = record c.request {
    status = status_of choice;
    approver = some (str (text_or (request.query "approver") "unknown"));
    comment = some (str (text_or (request.query "comment") ""));
  };
  callbacks = c.callbacks ++ call ∷ [];
}

module _ (host : Host) (web : Web) (request : Request) where
  call_lem :
      (now : ℕ) (choice : Choice)
      → action_of host request ≡ choice_name choice
      → call_of host web request now ≡ callback_of choice web request (web.iso now)
  unfolding cause_of
  call_lem now approve e = rw e refl
  call_lem now reject e = rw e refl

  abbrev answered : Response → Case → Result (Raised ApprovalError) Response × Case
  answered r c = (ok r, c)

  settled_lem :
      (choice : Choice) (call : Callback) (c : Case)
      → action_of host request ≡ choice_name choice
      → answered (thanks host request) (resolved host request (logged call c))
        ≡ answered (page_of choice) (settled_case choice call request c)
  settled_lem approve call c e = rw e refl
  settled_lem reject call c e = rw e refl

module _ {T : Type 0} (d : Dynamo T) (host : Host) (web : Web) where
  -- For a request that is in the table and PENDING or NOTIFIED, a link that has a request_id and a
  -- token and whose action is approve or reject, by the end of its path and else by its query, and
  -- whose call Step Functions accepts: approve succeeds the task of the token of the link and
  -- leaves the request APPROVED, reject fails it and leaves the request REJECTED, each with the
  -- approver and the comment of the link and its own page as the answer.
  pub decision_handler-settles :
      (choice : Choice) (request : Request) (w : World (Services T)) {c : Case}
      → Chosen host request choice
      → is_open c.request.status ≡ true
      → web.reply c.callbacks (callback_of choice web request (web.iso (host.time w.clock)))
        ≡ accepted
      → Stands d (parameter request "request_id") c w.cloud
      → Answers d (parameter request "request_id") (decision_handler d host web request) w (
        ok (page_of choice),
        settled_case choice
            (callback_of choice web request (web.iso (host.time w.clock)))
            request
            c,
      )
  decision_handler-settles choice request w {c = c} h waits says m =
      let asked = acts_lem host request _ h.acts in
      let same = call_lem host web request (host.time w.clock) choice asked in
      subst (Answers d (parameter request "request_id") (decision_handler d host web request) w)
        (contract-accepted host web request (host.time w.clock) c waits (rw same says)
          ∙ settled_lem host web request choice _ c asked
          ∙ ap
              (λ call.
                answered host web request (page_of choice) (settled_case choice call request c))
              same)
        (decision_handler-refines_contract d host web request w (sound_choice host request choice h)
          m)
