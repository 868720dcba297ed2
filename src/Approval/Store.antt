-- ===== src/Approval/Store.antt =====
-- store.py: one item per request, keyed by `request_id`.
pub mod Decides
pub mod Creates
use aws_serverless_patterns.Prelude.{
  ℕ, ◌+◌, String, List, [], ◌∷◌, Option, none, some, ◌==◌, if◌then◌else◌, ltb,
}
use aws_serverless_patterns.Prelude.Int.{pos}
use aws_serverless_patterns.Py.Value.{
  Value, Number, int, str, decimal, Fields, end, field, set, or_else, obj,
}
use aws_serverless_patterns.Py.Host.{Host}
use aws_serverless_patterns.Py.Exec.{
  Raised, own, client_error, Exec, pure, raise, read_clock, catch, ◌>>=◌, ◌>>◌,
}
use aws_serverless_patterns.Dynamo.{
  Dynamo, Item, Update, attribute, literal, always, both, attribute_exists, is_in,
}
use aws_serverless_patterns.Dynamo.Client.{get_item, put_item, update_item}
use aws_serverless_patterns.Approval.Services.{ApprovalError, already_decided}

abbrev pub time_value : ℕ → Value
time_value n = int (pos n)

abbrev pub base_item : Value → String → String → Value → ℕ → ℕ → Fields
base_item request_id title requester context created updated = field "request_id" request_id (
    field "title" (str title) (
      field "requester" (str requester) (
        field "status" (str "PENDING") (
          field "context" context (
            field "created_at" (time_value created)
              (field "updated_at" (time_value updated) end))))))

abbrev pub with_amount : Option Number → Fields → Fields
with_amount none fields = fields
with_amount (some amount) fields = set "amount" (decimal amount) fields

abbrev pub with_expiry : Option ℕ → Fields → Fields
with_expiry none fields = fields
with_expiry (some t) fields = set "expires_at" (time_value t) fields

abbrev pub decision_update : String → String → String → ℕ → ℕ → Update
decision_update decision approver comment decided updated = record {
  sets =
      (attribute "status", literal (str decision))
      ∷ (attribute "approver", literal (str approver))
      ∷ (attribute "decision_comment", literal (str comment))
      ∷ (attribute "decided_at", literal (time_value decided))
      ∷ (attribute "updated_at", literal (time_value updated))
      ∷ [];
  condition = both (attribute_exists "request_id") (is_in "status" ("PENDING" ∷ "NOTIFIED" ∷ []));
}

abbrev pub token_update : Value → ℕ → Update
token_update task_token updated = record {
  sets =
      (attribute "task_token", literal task_token)
      ∷ (attribute "status", literal (str "NOTIFIED"))
      ∷ (attribute "updated_at", literal (time_value updated))
      ∷ [];
  condition = always;
}

abbrev pub status_update : String → ℕ → Update
status_update status updated = record {
  sets =
      (attribute "status", literal (str status))
      ∷ (attribute "updated_at", literal (time_value updated))
      ∷ [];
  condition = always;
}

module _ {T : Type 0} (d : Dynamo T) (host : Host) where
  abbrev now : Exec ApprovalError T ℕ
  now = read_clock host.time

  -- `if ttl_seconds and ttl_seconds > 0: … _now() + ttl_seconds`
  abbrev pub expiry : ℕ → Exec ApprovalError T (Option ℕ)
  expiry ttl_seconds =
      if ltb 0 ttl_seconds then (do base ← now; pure (some (base + ttl_seconds))) else pure none

  unfoldable pub create :
      Value → String → Option Number → String → Value → ℕ → Exec ApprovalError T (Unit {0})
  create request_id title amount requester context ttl_seconds = do
    created ← now
    updated ← now
    expires ← expiry ttl_seconds
    put_item d request_id (
        with_expiry expires (
          with_amount amount (
            base_item request_id title requester (or_else (some context) (obj end)) created
              updated)))

  unfoldable pub attach_token : Value → Value → Exec ApprovalError T (Unit {0})
  attach_token request_id task_token = do
    updated ← now
    update_item d "request_id" request_id (token_update task_token updated)
    pure tt

  -- The `except ClientError` clause.
  abbrev pub translate : Raised ApprovalError → Exec ApprovalError T Item
  translate (client_error code) =
      if code == "ConditionalCheckFailedException"
      then raise (own already_decided)
      else raise (client_error code)
  translate e = raise e

  unfoldable pub record_decision :
      Value → String → String → String → Exec ApprovalError T (Unit {0})
  record_decision request_id decision approver comment = do
    decided ← now
    updated ← now
    catch
        (update_item d "request_id" request_id
          (decision_update decision approver comment decided updated))
        translate
    pure tt

  unfoldable pub set_status : Value → String → Exec ApprovalError T (Unit {0})
  set_status request_id status = do
    updated ← now
    update_item d "request_id" request_id (status_update status updated)
    pure tt

  unfoldable pub get_record : Value → Exec ApprovalError T (Option Item)
  get_record request_id = get_item d request_id
