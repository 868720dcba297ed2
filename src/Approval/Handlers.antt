-- ===== src/Approval/Handlers.antt =====
-- handlers.py: the tasks of Step Functions.
pub mod Prepare
pub mod Notify
use Prim.Native.String.{◌++◌ as concat}
use aws_serverless_patterns.Prelude.{ℕ, String, List, Option, none, some, ◌==◌, ◌||◌, if◌then◌else◌}
use aws_serverless_patterns.Py.Value.{
  none_as_null, Value, null, Number, float, str, obj, Fields, end, field, get, get_or, or_else,
  is_falsy,
}
use aws_serverless_patterns.Py.Host.{Host, Environment, float_of, str_of, dict_get}
use aws_serverless_patterns.Py.Text.{strip_slashes}
use aws_serverless_patterns.Py.Exec.{
  Result, ok, err, Raised, own, type_error, key_error, Exec, pure, lift, raise_if, or_raise,
  draw_id, ◌>>=◌, ◌>>◌,
}
use aws_serverless_patterns.Dynamo.{Dynamo}
use aws_serverless_patterns.Approval.Services.{
  ApprovalError, approval_input_error, Callback, Reply, Services, on_table, send_email,
}
use aws_serverless_patterns.Approval.Store.{create, attach_token}
use aws_serverless_patterns.Approval.Email.{render_email}

abbrev pub Event : Type 0
Event = Fields

abbrev pub default_ttl_seconds : ℕ
default_ttl_seconds = 7776000

-- `urllib.parse.quote`, `json.dumps` of a dict, `json.loads`, where `none` is a JSONDecodeError, the
-- text of a time as `strftime` writes it, and how Step Functions answers a call after others.
pub record Web : Type 0 where
  pub quote : String → String
  pub dumps : Fields → String
  pub loads : String → Option Value
  pub iso : ℕ → String
  pub reply : List Callback → Callback → Reply

-- A title is a text that is not empty.
abbrev pub title_of : Option Value → Result (Raised ApprovalError) String
title_of (some (str s)) = if s == "" then err (own approval_input_error) else ok s
title_of v = err (own approval_input_error)

abbrev as_input_error :
    Result (Raised ApprovalError) Number → Result (Raised ApprovalError) (Option Number)
as_input_error (ok x) = ok (some x)
as_input_error (err e) = err (own approval_input_error)

-- `None` stays; whatever `float` refuses is an input error.
abbrev pub amount_of : Host → Option Value → Result (Raised ApprovalError) (Option Number)
amount_of host none = ok none
amount_of host (some null) = ok none
amount_of host (some v) = as_input_error (float_of host v)

abbrev pub amount_value : Option Number → Value
amount_value none = null
amount_value (some x) = float x

abbrev pub quoted : Web → Value → Result (Raised ApprovalError) String
quoted web (str s) = ok (web.quote s)
quoted web v = err type_error

module _ {T : Type 0} (d : Dynamo T) (host : Host) (env : Environment) (web : Web) where
  abbrev pub Task : Type 0 → Type 0
  Task A = Exec ApprovalError (Services T) A

  abbrev pub request_id_of : Option Value → Task Value
  request_id_of given =
      if is_falsy given
      then (do hex ← draw_id host.uuid; pure (str (concat "req-" hex)))
      else pure (none_as_null given)

  unfoldable pub prepare_request : Event → Task Fields
  prepare_request spec = do
    title ← lift (title_of (get "title" spec))
    let requester = str_of host (get_or spec "requester" (str "unknown"))
    request_id ← request_id_of (get "request_id" spec)
    amount ← lift (amount_of host (get "amount" spec))
    create (on_table d) host request_id title amount requester
        (or_else (get "context" spec) (obj end)) default_ttl_seconds
    pure (
        field "request_id" request_id (
          field "title" (str title)
            (field "amount" (amount_value amount) (field "requester" (str requester) end))))

  -- `_decision_url`
  unfoldable pub decision_url : String → Value → Value → Task String
  decision_url action request_id token = do
    base ← or_raise (env "API_BASE_URL") key_error
    id ← lift (quoted web request_id)
    quoted_token ← lift (quoted web token)
    pure (
        concat (strip_slashes base) (
          concat "/"
            (concat action (concat "?request_id=" (concat id (concat "&token=" quoted_token))))))

  abbrev as_fields : Value → Fields
  as_fields (obj fs) = fs
  as_fields v = end

  unfoldable pub send_approval_email : Event → Task Fields
  send_approval_email event = do
    let request = or_else (get "request" event) (obj end)
    request_id ← lift (dict_get request "request_id")
    raise_if (is_falsy request_id || is_falsy (get "task_token" event)) (own approval_input_error)
    let id = none_as_null request_id
    let token = none_as_null (get "task_token" event)
    attach_token (on_table d) host id token
    approve_url ← decision_url "approve" id token
    reject_url ← decision_url "reject" id token
    email ← lift (render_email host env (as_fields request) approve_url reject_url)
    send_email email
    pure (field "request_id" id (field "status" (str "NOTIFIED") end))
