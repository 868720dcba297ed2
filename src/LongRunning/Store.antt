-- ===== src/LongRunning/Store.antt =====
-- store.py: one item per job, keyed by `job_id`. A `Decimal` that is an integer is the same number
-- of the table as that `int`, and is written here as the `int`.
pub mod Refines
pub mod Creates
pub mod Refused
use aws_serverless_patterns.Prelude.{ℕ, String, Bool, Option, none, some, [], ◌∷◌, if◌then◌else◌}
use aws_serverless_patterns.Prelude.Int.{ℤ, pos, ◌+ℤ◌, ltb_ℤ}
use aws_serverless_patterns.Py.Value.{Value, bool, int, str, Fields, end, field, set}
use aws_serverless_patterns.Py.Host.{Host}
use aws_serverless_patterns.Py.Exec.{
  Result, ok, err, Raised, key_error, Exec, pure, lift, read_clock, ◌>>=◌, ◌>>◌,
}
use aws_serverless_patterns.Dynamo.{Dynamo, Item, Update, attribute, literal, plus_or, always}
use aws_serverless_patterns.Dynamo.Client.{get_item, put_item, update_item}
use aws_serverless_patterns.LongRunning.Errors.{JobError}

abbrev pub time_value : ℕ → Value
time_value n = int (pos n)

abbrev pub base_item : Value → ℤ → Bool → Value → ℕ → ℕ → Fields
base_item job_id succeed_after fail_job payload created updated = field "job_id" job_id (
    field "status" (str "SUBMITTED") (
      field "attempts" (int (pos 0)) (
        field "progress" (int (pos 0)) (
          field "succeed_after_attempts" (int succeed_after) (
            field "fail_job" (bool fail_job) (
              field "payload" payload (
                field "created_at" (time_value created)
                  (field "updated_at" (time_value updated) end))))))))

-- The item that `create` writes; `expires_at` only with a positive time to live.
unfoldable pub new_item : Value → ℤ → Bool → Value → ℕ → ℕ → Option ℤ → Fields
new_item job_id succeed_after fail_job payload created updated none =
    base_item job_id succeed_after fail_job payload created updated
new_item job_id succeed_after fail_job payload created updated (some t) =
    set "expires_at" (int t) (base_item job_id succeed_after fail_job payload created updated)

-- `int(resp["Attributes"]["attempts"])`, an integer that the update has just written
abbrev attempts_of : Option Value → Result (Raised JobError) ℤ
attempts_of (some (int n)) = ok n
attempts_of v = err key_error

abbrev pub attempt_update : ℕ → Update
attempt_update updated = record {
  sets =
      (attribute "attempts", plus_or (attribute "attempts") (pos 0) (pos 1))
      ∷ (attribute "updated_at", literal (time_value updated))
      ∷ [];
  condition = always;
}

abbrev pub progress_update : String → ℤ → ℕ → Update
progress_update status progress updated = record {
  sets =
      (attribute "status", literal (str status))
      ∷ (attribute "progress", literal (int progress))
      ∷ (attribute "updated_at", literal (time_value updated))
      ∷ [];
  condition = always;
}

abbrev pub status_update : String → ℕ → Update
status_update status updated = record {
  sets =
      (attribute "status", literal (str status))
      ∷ (attribute "updated_at", literal (time_value updated))
      ∷ [];
  condition = always;
}

abbrev pub token_update : Value → ℕ → Update
token_update task_token updated = record {
  sets =
      (attribute "task_token", literal task_token)
      ∷ (attribute "signoff_status", literal (str "PENDING"))
      ∷ (attribute "updated_at", literal (time_value updated))
      ∷ [];
  condition = always;
}

module _ {T : Type 0} (d : Dynamo T) (host : Host) where
  abbrev now : Exec JobError T ℕ
  now = read_clock host.time

  abbrev pub expiry : Option ℤ → Exec JobError T (Option ℤ)
  expiry none = pure none
  expiry (some ttl_seconds) =
      if ltb_ℤ (pos 0) ttl_seconds
      then (do base ← now; pure (some (pos base +ℤ ttl_seconds)))
      else pure none

  unfoldable pub create : Value → ℤ → Bool → Value → Option ℤ → Exec JobError T (Unit {0})
  create job_id succeed_after fail_job payload ttl_seconds = do
    created ← now
    updated ← now
    expires ← expiry ttl_seconds
    put_item d job_id (new_item job_id succeed_after fail_job payload created updated expires)

  unfoldable pub get_record : Value → Exec JobError T (Option Item)
  get_record job_id = get_item d job_id

  unfoldable pub increment_attempt : Value → Exec JobError T ℤ
  increment_attempt job_id = do
    updated ← now
    item ← update_item d "job_id" job_id (attempt_update updated)
    lift (attempts_of (item "attempts"))

  unfoldable pub update_progress : Value → String → ℤ → Exec JobError T (Unit {0})
  update_progress job_id status progress = do
    updated ← now
    update_item d "job_id" job_id (progress_update status progress updated)
    pure tt

  unfoldable pub set_status : Value → String → Exec JobError T (Unit {0})
  set_status job_id status = do
    updated ← now
    update_item d "job_id" job_id (status_update status updated)
    pure tt

  unfoldable pub attach_token : Value → Value → Exec JobError T (Unit {0})
  attach_token job_id task_token = do
    updated ← now
    update_item d "job_id" job_id (token_update task_token updated)
    pure tt
