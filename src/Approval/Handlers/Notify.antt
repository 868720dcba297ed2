-- ===== src/Approval/Handlers/Notify.antt =====
-- `send_approval_email`: the token is stored before the mail is written.
use aws_serverless_patterns.Prelude.{
  ◌++◌, ◌∷◌, [], String, List, ◌≡◌, some, ◌==◌, false, refl, ap, not, ◌||◌,
}
use aws_serverless_patterns.Py.Exec.{◌>>=◌, Result, World, pure, Raised, lift, ◌>>◌}
use Prim.Native.String.{◌++◌ as concat}
use aws_serverless_patterns.Dynamo.{Dynamo}
use aws_serverless_patterns.Py.Value.{Fields, get, or_else, obj, end, str, Value}
use aws_serverless_patterns.Approval.View.{Approval, Shows, Shows-on_table, Shows-table}
use aws_serverless_patterns.Approval.Handlers.{
  Web, decision_url, send_approval_email, field, ok, err,
}
use aws_serverless_patterns.Py.Text.{strip_slashes}
use aws_serverless_patterns.Py.Host.{Host, Environment, dict_get}
use aws_serverless_patterns.Approval.Services.{Services, Email, send_email, ApprovalError, on_table}
use aws_serverless_patterns.Approval.Email.{render_email}
use aws_serverless_patterns.Approval.Email.Offers.{Written, render_email-Written}
use aws_serverless_patterns.Py.Ends.{Ends, Ends-lift}
use aws_serverless_patterns.Py.Gives.{Gives, Gives-bind, Gives-bind_if}
use aws_serverless_patterns.Approval.Store.{attach_token}
use aws_serverless_patterns.Approval.Store.Decides.{attach_token-Ends}
use aws_serverless_patterns.Dynamo.Client.{update_item}
use aws_serverless_patterns.Py.Keeps.{Keeps, Keeps-bind, Keeps-read_clock, Keeps-pure}

fields_lem : (fs : Fields) → or_else (some (obj fs)) (obj end) ≡ obj fs
fields_lem end = refl
fields_lem (field j v fs) = refl

-- The event of the task: a request with a key, and the task's token.
pub record Awaits (web : Web) (event request : Fields) (k token : String) : Type 0 where
  pub asked : get "request" event ≡ some (obj request)
  pub key_is : get "request_id" request ≡ some (str k)
  pub named : (k == "") ≡ false
  pub token_is : get "task_token" event ≡ some (str token)
  pub present : (token == "") ≡ false

abbrev pub link : Web → String → String → String → String → String
link web base action k token = concat (strip_slashes base) (
    concat "/" (
      concat action
        (concat "?request_id=" (concat (web.quote k) (concat "&token=" (web.quote token))))))

-- A request with the mails so far.
pub record Notice : Type 0 where
  pub request : Approval
  pub outbox : List Email

pub record Mailed {T : Type 0} (d : Dynamo T) (k : String) (n : Notice) (s : Services T)
    : Type 0 where
  pub shown : Shows d k n.request s.table
  pub posted : s.outbox ≡ n.outbox

-- The answer of the task, and the mails, where the mail is written or fails to be.
abbrev pub mailing :
    String
    → List Email
    → Result (Raised ApprovalError) Email
    → Result (Raised ApprovalError) Fields × List Email
mailing k outbox (ok email) =
    (ok (field "request_id" (str k) (field "status" (str "NOTIFIED") end)), outbox ++ email ∷ [])
mailing k outbox (err e) = (err e, outbox)

module _ {T : Type 0} (d : Dynamo T) (host : Host) (env : Environment) (web : Web) where
  decision_url-Ends :
      {S : Type 0} {R : S → Services T → Type 0} {s : S} (action base k token : String)
      (w : World (Services T))
      → env "API_BASE_URL" ≡ some base
      → R s w.cloud
      → Ends R
          (decision_url d host env web action (str k) (str token))
          w
          (link web base action k token)
          s
  unfolding decision_url ◌>>=◌ pure
  decision_url-Ends action base k token w set_to h = record {
    returned = rw set_to refl;
    after = rw set_to h;
  }

  attach_token-Keeps :
      (P : List Email → Type 0) (key token : Value)
      → Keeps (λ s. P s.outbox) (attach_token (on_table d) host key token)
  unfolding attach_token update_item
  attach_token-Keeps P key token =
      Keeps-bind _ _ (Keeps-read_clock _)
        (λ updated. Keeps-bind _ _ (record { at = λ w h. h }) (λ item. Keeps-pure tt))

  attach_token-Mailed :
      (k token : String) (w : World (Services T)) {n : Notice}
      → (k == "") ≡ false
      → Mailed d k n w.cloud
      → Ends (Mailed d k) (attach_token (on_table d) host (str k) (str token)) w tt (record n {
        request = record n.request { status = "NOTIFIED"; token = some (str token) };
      })
  attach_token-Mailed k token w {n = n} named h =
      let run =
        attach_token-Ends (on_table d) host k named w (Shows-on_table w.cloud h.shown) token in
      record {
        returned = run.returned;
        after = record {
          shown = Shows-table _ run.after;
          posted = (attach_token-Keeps (λ l. l ≡ n.outbox) (str k) (str token)).at w h.posted;
        };
      }

  mail-Gives :
      (r : Result (Raised ApprovalError) Email) (k : String) (w : World (Services T)) {n : Notice}
      → Mailed d k n w.cloud
      → Gives
          (Mailed d k)
          (do
            email ← lift r
            send_email email
            pure (field "request_id" (str k) (field "status" (str "NOTIFIED") end)))
          w
          (mailing k n.outbox r).0
          (record n { outbox = (mailing k n.outbox r).1 })
  unfolding ◌>>=◌ send_email pure
  mail-Gives (ok email) k w h = record {
    result = refl;
    after = record { shown = h.shown; posted = ap (λ l. l ++ email ∷ []) h.posted };
  }
  mail-Gives (err e) k w h = record { result = refl; after = h }

  -- For a request that is in the table, a token and a base URL, send_approval_email stores the
  -- token and leaves the request NOTIFIED in any case; if the mail can be written it sends it and
  -- returns, and that mail is from the configured sender to the configured approvers, and has the
  -- approve link at Approve and the reject link at Reject, in its text and in its page; else it
  -- raises KeyError, as no sender is configured, or the input error, as no approver is, and sends
  -- nothing.
  pub send_approval_email-Gives :
      (event request : Fields) (k token base : String) (w : World (Services T)) {n : Notice}
      → Awaits web event request k token
      → env "API_BASE_URL" ≡ some base
      → Mailed d k n w.cloud
      → let mailed = mailing k n.outbox (
          render_email host env request
            (link web base "approve" k token)
            (link web base "reject" k token)) in
        Gives (Mailed d k) (send_approval_email d host env web event) w mailed.0 (record {
          request = record n.request { status = "NOTIFIED"; token = some (str token) };
          outbox = mailed.1;
        })
        × Written env (link web base "approve" k token) (link web base "reject" k token) (
            render_email host env request
              (link web base "approve" k token)
              (link web base "reject" k token))
  unfolding send_approval_email dict_get lift
  send_approval_email-Gives event request k token base w h set_to m = (
    rw (h.asked, fields_lem request, h.key_is, h.token_is)
        (Gives-bind _ _ w (Ends-lift _ w refl m) (λ _.
          Gives-bind_if (not (not (k == "")) || not (not (token == ""))) _ _ w
            (rw (h.named, h.present) refl)
            (Gives-bind _ _ w (attach_token-Mailed k token w h.named m) (λ m3.
              Gives-bind _ _ _ (decision_url-Ends "approve" base k token _ set_to m3) (λ m4.
                Gives-bind _ _ _ (decision_url-Ends "reject" base k token _ set_to m4)
                  (λ m5. mail-Gives _ k _ m5)))))),
    render_email-Written host env request _ _,
  )
