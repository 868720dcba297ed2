-- ===== src/Approval/Decision/Refines.antt =====
-- `decision_handler` meets its contract.
use aws_serverless_patterns.Prelude.{
  true, false, Bool, ◌||◌, ◌++◌, ◌∷◌, [], ◌==◌, Option, String, ◌≡◌, some, refl, ℕ, arith,
}
use aws_serverless_patterns.Py.Exec.{
  ◌>>◌, World, Exec, Raised, Result, catch, err, own, pure, client_error, raise,
}
use aws_serverless_patterns.Approval.Services.{
  accepted, timed_out, does_not_exist, refused, Callback, Services, Reply, ApprovalError,
  outcome_of, send, on_table, task_timed_out, task_does_not_exist,
}
use aws_serverless_patterns.Dynamo.{Dynamo}
use aws_serverless_patterns.Py.Value.{Value, str, is_text}
use aws_serverless_patterns.Py.Host.{Host}
use aws_serverless_patterns.Approval.Handlers.{Web}
use aws_serverless_patterns.Approval.Decision.{
  Response, answer_error, Request, decided_meanwhile, action_of, parameter, resume, is_malformed,
  on_record, decision_handler, decide,
}
use aws_serverless_patterns.Approval.Decision.Contract.{
  is_settled, after_reply, approver_of, comment_of, Answers, followed, if_open, contract,
}
use aws_serverless_patterns.Approval.View.{Case, Stands, decided}
use aws_serverless_patterns.Py.Ends.{
  Ends-pure, Fails-first, Ends-bind, Fails-bind, Ends, Ends-read_clock,
}
use aws_serverless_patterns.Py.Gives.{Gives, Gives-ok, Gives-catch_err, Gives-catch_ok, Gives-bind}
use aws_serverless_patterns.Approval.Store.{record_decision, get_record}
use aws_serverless_patterns.Approval.Decision.Records.{
  send-Fails, send-Ends, decision-Ends, decision-Fails,
}
use aws_serverless_patterns.Approval.Store.Decides.{is_open}
use aws_serverless_patterns.Dynamo.Client.{get_item}

settled_lem :
    (v : Option Value) (status : String)
    → v ≡ some (str status)
    → (is_text v "APPROVED" || is_text v "REJECTED") ≡ is_settled status
settled_lem v status e = rw e

module _ {T : Type 0} (d : Dynamo T) (host : Host) (web : Web) (k : String)
    (named : (k == "") ≡ false) where
  module _ (call : Callback) (decision approver comment : String) (thank : Response)
      (w : World (Services T)) {c : Case} (h : Stands d k c w.cloud) where
    abbrev told : Case
    told = record c { callbacks = c.callbacks ++ call ∷ [] }

    abbrev finish : Exec ApprovalError (Services T) Response
    finish = do record_decision (on_table d) host (str k) decision approver comment; pure thank

    -- One call, one decision, and the `except` clauses.
    abbrev attempt : Exec ApprovalError (Services T) Response
    attempt = catch (send web.reply call >> finish) (answer_error d host web)

    abbrev done : Case
    done = record told { request = decided decision approver comment c.request }

    attempt-accepted :
        (b : Bool)
        → is_open c.request.status ≡ b
        → web.reply c.callbacks call ≡ accepted
        → Answers d k attempt w (if_open b thank done told)
    attempt-accepted true waits says = Gives-catch_ok _ _ w (
        Ends-bind (send web.reply call) _ w (send-Ends d host k web.reply call w says h) (λ h'.
          Ends-bind _ _ _ (decision-Ends d host k named _ h' decision approver comment waits)
            (λ h''. Ends-pure thank _ h'')))
    attempt-accepted false settled says =
        Gives-catch_err _ _ w
          (Fails-bind (send web.reply call) _ w (send-Ends d host k web.reply call w says h) (λ h'.
            Fails-first _ _ _
              (decision-Fails d host k named _ h' decision approver comment settled)))
          (λ h'. Gives-ok _ _ (Ends-pure decided_meanwhile _ h'))

    attempt-refused :
        (e : Raised ApprovalError) {r : Result (Raised ApprovalError) Response}
        → outcome_of (web.reply c.callbacks call) ≡ err e
        → ((w' : World (Services T))
            → Stands d k told w'.cloud
            → Gives (Stands d k) (answer_error d host web e) w' r told)
        → Gives (Stands d k) attempt w r told
    attempt-refused e says answered =
        Gives-catch_err _ _ w (Fails-first _ _ w (send-Fails d host k web.reply call w says h))
          (answered _)

    attempt-Gives :
        (r : Reply)
        → web.reply c.callbacks call ≡ r
        → Answers d k attempt w (after_reply thank done told r)
    unfolding raise
    attempt-Gives accepted says = attempt-accepted (is_open c.request.status) refl says
    attempt-Gives timed_out says =
        attempt-refused (own task_timed_out) (rw says refl)
          (λ w' h'. Gives-ok _ w' (Ends-pure _ w' h'))
    attempt-Gives does_not_exist says =
        attempt-refused (own task_does_not_exist) (rw says refl)
          (λ w' h'. Gives-ok _ w' (Ends-pure _ w' h'))
    attempt-Gives (refused code) says =
        attempt-refused (client_error code) (rw says refl)
          (λ w' h'. record { result = refl; after = h' })

module _ {T : Type 0} (d : Dynamo T) (host : Host) (web : Web) where
  -- `Records` covers both branches of `resume`.
  resume-Gives :
      (b : Bool) (request : Request) (now : ℕ) (w : World (Services T)) {c : Case}
      → (action_of host request == "approve") ≡ b
      → (parameter request "request_id" == "") ≡ false
      → Stands d (parameter request "request_id") c w.cloud
      → Answers d
          (parameter request "request_id")
          (catch
            (resume d host web
              (action_of host request)
              (parameter request "request_id")
              (parameter request "token")
              (approver_of request)
              (comment_of request)
              (web.iso now))
            (answer_error d host web))
          w
          (followed host web request now c)
  resume-Gives true request now w says named h =
      rw says (attempt-Gives d host web (parameter request "request_id") named _ _ _ _ _ w h _ refl)
  resume-Gives false request now w says named h =
      rw says (attempt-Gives d host web (parameter request "request_id") named _ _ _ _ _ w h _ refl)

  pub named_lem :
      (request : Request)
      → is_malformed host request ≡ false
      → (parameter request "request_id" == "") ≡ false
  named_lem request sound = ground arith

  pub followed-Gives :
      (request : Request) (w : World (Services T)) {c : Case}
      → (parameter request "request_id" == "") ≡ false
      → Stands d (parameter request "request_id") c w.cloud
      → Answers d
          (parameter request "request_id")
          (decide d host web request)
          w
          (followed host web request (host.time w.clock) c)
  followed-Gives request w named h =
      Gives-bind _ _ w (Ends-read_clock host.time w h)
        (λ h'. resume-Gives _ request (host.time w.clock) _ refl named h')

  get_record-Stands :
      (request : Request) (w : World (Services T)) {c : Case}
      → (parameter request "request_id" == "") ≡ false
      → (h : Stands d (parameter request "request_id") c w.cloud)
      → Ends
          (Stands d (parameter request "request_id"))
          (get_record (on_table d) host (str (parameter request "request_id")))
          w
          (some h.shown.item)
          c
  unfolding get_record get_item
  get_record-Stands request w named h = record {
    returned = rw (d.get_result, named, h.shown.found);
    after = h;
  }

  on_record-Gives :
      (b : Bool) (request : Request) (w : World (Services T)) {c : Case}
      → is_settled c.request.status ≡ b
      → (parameter request "request_id" == "") ≡ false
      → (h : Stands d (parameter request "request_id") c w.cloud)
      → Answers d
          (parameter request "request_id")
          (on_record d host web request (some h.shown.item))
          w
          (contract host web request (host.time w.clock) c)
  unfolding pure
  on_record-Gives true request w says named h =
      let same = settled_lem _ _ h.shown.status_is in
      record { result = rw (same, says, h.shown.status_is); after = rw (same, says) h }
  on_record-Gives false request w says named h =
      let same = settled_lem _ _ h.shown.status_is in
      rw (same, says) (followed-Gives request w named h)

  -- A well-formed link for a request that is in the table answers and leaves the request and the
  -- log of calls as the contract says, which knows no table: a settled request is answered 409 and
  -- left alone; else one call is made, with the token of the link, and if Step Functions accepts
  -- it, an open request is settled by the verdict with its approver and comment, and any other
  -- answered 409; a timed out or unknown task is answered 410 and any other refusal raised, the
  -- request unchanged.
  pub decision_handler-refines_contract :
      (request : Request) (w : World (Services T)) {c : Case}
      → is_malformed host request ≡ false
      → Stands d (parameter request "request_id") c w.cloud
      → Answers d
          (parameter request "request_id")
          (decision_handler d host web request)
          w
          (contract host web request (host.time w.clock) c)
  unfolding decision_handler get_record get_item
  decision_handler-refines_contract request w sound h = rw sound (
      Gives-bind _ _ w (get_record-Stands request w (named_lem request sound) h)
        (λ _. on_record-Gives _ request w refl (named_lem request sound) h))
