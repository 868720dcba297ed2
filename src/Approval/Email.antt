-- ===== src/Approval/Email.antt =====
-- handlers.py: `_send_email` up to the call of SES.
pub mod Offers
use Prim.Native.String.{◌++◌ as concat}
use aws_serverless_patterns.Prelude.{
  String, List, [], ◌∷◌, Bool, Option, none, some, ◌==◌, if◌then◌else◌,
}
use aws_serverless_patterns.Py.Value.{Value, null, Fields, str, get, get_or}
use aws_serverless_patterns.Py.Host.{Host, Environment, str_of}
use aws_serverless_patterns.Py.Text.{strip, split_commas, escape}
use aws_serverless_patterns.Py.Exec.{Result, ok, Raised, own, key_error}
use aws_serverless_patterns.Py.Fallible.{◌>>=◌, ◌>>◌, guard_not, some_or}
use aws_serverless_patterns.Approval.Services.{ApprovalError, approval_input_error, Email}

abbrev pub without_blanks : List String → List String
without_blanks [] = []
without_blanks (a ∷ rest) =
    let others = without_blanks rest in if strip a == "" then others else strip a ∷ others

-- The addresses of `APPROVER_ADDRESSES`.
abbrev pub recipients_of : Option String → List String
recipients_of none = without_blanks (split_commas "")
recipients_of (some addresses) = without_blanks (split_commas addresses)

abbrev pub is_nil : List String → Bool
is_nil [] = Bool.true
is_nil (a ∷ rest) = Bool.false

abbrev pub texts : List String → String
texts [] = ""
texts (s ∷ rest) = concat s (texts rest)

-- The text of the amount, where there is one.
abbrev pub shown_amount : Host → Option Value → Option String
shown_amount host none = none
shown_amount host (some null) = none
shown_amount host (some v) = some (str_of host v)

abbrev pub map_text : (String → String) → Option String → Option String
map_text f none = none
map_text f (some s) = some (f s)

abbrev pub line_of : String → Option String → String → String
line_of before none after = ""
line_of before (some s) after = concat before (concat s after)

abbrev text_body : String → String → Option String → String → String → String
text_body title requester amount approve_url reject_url = texts (
    "An approval is requested.\n\nTitle: "
    ∷ title
    ∷ "\nRequested by: "
    ∷ requester
    ∷ "\n"
    ∷ line_of "Amount: " amount "\n"
    ∷ "\nApprove: "
    ∷ approve_url
    ∷ "\nReject:  "
    ∷ reject_url
    ∷ "\n"
    ∷ [])

abbrev html_body : String → String → String → Option String → String → String → String
html_body prefix title requester amount approve_url reject_url = texts (
    "<html><body style='font-family:system-ui,sans-serif;color:#1f2937'><h2>"
    ∷ escape prefix
    ∷ " "
    ∷ escape title
    ∷ "</h2><p>Requested by <strong>"
    ∷ escape requester
    ∷ "</strong>.</p>"
    ∷ line_of "<p>Amount: <strong>" (map_text escape amount) "</strong></p>"
    ∷ "<p style='margin-top:1.5rem'><a href='"
    ∷ escape approve_url
    ∷ "' style='background:#16a34a;color:#fff;padding:.6rem 1.2rem;border-radius:.4rem;text-decoration:none;margin-right:.75rem'>Approve</a><a href='"
    ∷ escape reject_url
    ∷ "' style='background:#dc2626;color:#fff;padding:.6rem 1.2rem;border-radius:.4rem;text-decoration:none'>Reject</a></p></body></html>"
    ∷ [])

abbrev pub prefix_of : Option String → String
prefix_of none = "[Approval Required]"
prefix_of (some s) = s

unfoldable pub render_email :
    Host → Environment → Fields → String → String → Result (Raised ApprovalError) Email
render_email host env request approve_url reject_url = do
  source ← some_or (env "FROM_ADDRESS") key_error
  let recipients = recipients_of (env "APPROVER_ADDRESSES")
  guard_not (is_nil recipients) (own approval_input_error)
  let prefix = prefix_of (env "EMAIL_SUBJECT_PREFIX")
  let title = str_of host (get_or request "title" (str "approval request"))
  let requester = str_of host (get_or request "requester" (str "unknown"))
  let amount = shown_amount host (get "amount" request)
  ok (record {
    source = source;
    to_addresses = recipients;
    subject = concat prefix (concat " " title);
    text = text_body title requester amount approve_url reject_url;
    html = html_body prefix title requester amount approve_url reject_url;
  })
