-- ===== src/Approval/Decision/Contract.antt =====
-- What a followed link promises, told without the table: it is decided by the request's status and
-- by Step Functions' answer.
use aws_serverless_patterns.Prelude.{
  inl, inr, ◌⊎◌, ◌≡◌, refl, arith, eq_iff, true, false, Bool, if◌then◌else◌, String, ℕ, ◌++◌, ◌==◌,
  ◌∷◌, ◌||◌, [],
}
use aws_serverless_patterns.Approval.Services.{
  accepted, timed_out, does_not_exist, refused, task_success, task_failure, Services, Reply,
  Callback, ApprovalError,
}
use aws_serverless_patterns.Py.Host.{Host}
use aws_serverless_patterns.Approval.Decision.{
  Request, Response, parameter, decided_meanwhile, link_expired, not_awaited, was_decided,
  action_of, approved, rejected, details, cause_of,
}
use aws_serverless_patterns.Approval.Handlers.{Web}
use aws_serverless_patterns.Approval.View.{Case, decided, Stands}
use aws_serverless_patterns.Py.Exec.{Result, Raised, ok, err, client_error, Exec, World}
use aws_serverless_patterns.Py.Text.{text_or}
use aws_serverless_patterns.Approval.Store.Decides.{is_open}
use aws_serverless_patterns.Dynamo.{Dynamo}
use aws_serverless_patterns.Py.Gives.{Gives}

abbrev pub is_settled : String → Bool
is_settled status = status == "APPROVED" || status == "REJECTED"

-- The answer for a call that Step Functions did not accept.
abbrev pub refusal : Reply → Result (Raised ApprovalError) Response
refusal accepted = ok decided_meanwhile
refusal timed_out = ok link_expired
refusal does_not_exist = ok not_awaited
refusal (refused code) = err (client_error code)

abbrev pub verdict : Host → Request → String
verdict host request = if action_of host request == "approve" then "APPROVED" else "REJECTED"

abbrev pub thanks : Host → Request → Response
thanks host request = if action_of host request == "approve" then approved else rejected

abbrev pub approver_of : Request → String
approver_of request = text_or (request.query "approver") "unknown"

abbrev pub comment_of : Request → String
comment_of request = text_or (request.query "comment") ""

-- What the link tells the execution that waits for the link's token.
abbrev pub call_of : Host → Web → Request → ℕ → Callback
call_of host web request now =
    let token = parameter request "token" in
    let approver = approver_of request in
    let at = web.iso now in
    let comment = comment_of request in
    if action_of host request == "approve"
    then task_success token (web.dumps (details "approved_by" approver at comment))
    else task_failure token "ApprovalRejected" (cause_of web approver at comment)

abbrev pub logged : Callback → Case → Case
logged call c = record c { callbacks = c.callbacks ++ call ∷ [] }

abbrev pub resolved : Host → Request → Case → Case
resolved host request c = record c {
  request = decided (verdict host request) (approver_of request) (comment_of request) c.request;
}

abbrev pub if_open : Bool → Response → Case → Case → Result (Raised ApprovalError) Response × Case
if_open true thank done c = (ok thank, done)
if_open false thank done c = (ok decided_meanwhile, c)

-- Where Step Functions accepts the call, the decision is recorded if the request is still open.
abbrev pub after_reply :
    Response → Case → Case → Reply → Result (Raised ApprovalError) Response × Case
after_reply thank done c accepted = if_open (is_open c.request.status) thank done c
after_reply thank done c reply = (refusal reply, c)

-- Following a link whose request waits.
abbrev pub followed :
    Host → Web → Request → ℕ → Case → Result (Raised ApprovalError) Response × Case
followed host web request now c =
    let told = logged (call_of host web request now) c in
    after_reply (thanks host request) (resolved host request told) told
      (web.reply c.callbacks (call_of host web request now))

abbrev pub contract :
    Host → Web → Request → ℕ → Case → Result (Raised ApprovalError) Response × Case
contract host web request now c =
    if is_settled c.request.status
    then (ok (was_decided (host.lower c.request.status)), c)
    else followed host web request now c

-- A run gives the answer and leaves the case.
abbrev pub Answers :
    {T : Type 0}
    → Dynamo T
    → String
    → Exec ApprovalError (Services T) Response
    → World (Services T)
    → Result (Raised ApprovalError) Response × Case
    → Type 0
Answers d k m w (r, c) = Gives (Stands d k) m w r c

open_cases : (s : String) → is_open s ≡ true → (s ≡ "PENDING") ⊎ (s ≡ "NOTIFIED")
open_cases s h = ground (arith, eq_iff s "PENDING", eq_iff s "NOTIFIED")

settled_cases : (s : String) → is_settled s ≡ true → (s ≡ "APPROVED") ⊎ (s ≡ "REJECTED")
settled_cases s h = ground (arith, eq_iff s "APPROVED", eq_iff s "REJECTED")

-- No status is both.
pub open_not_settled : (s : String) → is_open s ≡ true → is_settled s ≡ false
open_not_settled s h = elim (open_cases s h) [ inl e ↦ rw e refl | inr e ↦ rw e refl ]

pub settled_not_open : (s : String) → is_settled s ≡ true → is_open s ≡ false
settled_not_open s h = elim (settled_cases s h) [ inl e ↦ rw e refl | inr e ↦ rw e refl ]

chosen_settled : (b : Bool) → is_settled (if b then "APPROVED" else "REJECTED") ≡ true
chosen_settled true = refl
chosen_settled false = refl

pub verdict_settled : (host : Host) (request : Request) → is_settled (verdict host request) ≡ true
verdict_settled host request = chosen_settled (action_of host request == "approve")

-- Once the request is settled, a link changes nothing.
pub contract_settled :
    (host : Host) (web : Web) (request : Request) (now : ℕ) (c : Case)
    → is_settled c.request.status ≡ true
    → contract host web request now c ≡ (ok (was_decided (host.lower c.request.status)), c)
contract_settled host web request now c settled = rw settled

-- An accepted call for an open request settles it.
pub contract-accepted :
    (host : Host) (web : Web) (request : Request) (now : ℕ) (c : Case)
    → is_open c.request.status ≡ true
    → web.reply c.callbacks (call_of host web request now) ≡ accepted
    → contract host web request now c
      ≡ (ok (thanks host request), resolved host request (logged (call_of host web request now) c))
contract-accepted host web request now c waits says =
    rw (open_not_settled c.request.status waits, says, waits)
