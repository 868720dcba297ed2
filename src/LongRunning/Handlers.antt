-- ===== src/LongRunning/Handlers.antt =====
-- handlers.py: the four tasks of the state machine.
use aws_serverless_patterns.Prelude.{
  ℕ, String, Bool, false, ◌&&◌, ◌||◌, Option, none, some, ◌==◌, ◌^◌, ◌*◌, ◌/◌, ◌%◌, suc,
  if◌then◌else◌, ltb, nat_eq,
}
use aws_serverless_patterns.Prelude.Int.{
  ℤ, pos, negsuc, pos_part, sub_ℕ, scale, ltb_ℤ, leb_ℤ, min_ℤ, max_ℤ,
}
use aws_serverless_patterns.Py.Value.{
  none_as_null, Value, bool, int, str, obj, Fields, end, field, get, get_or, or_else, truthy,
  is_falsy,
}
use aws_serverless_patterns.Py.Host.{Host, Environment, int_env, int_of, dict_get}
use aws_serverless_patterns.Py.Exec.{
  own, Exec, pure, lift, raise_if, or_raise, draw_id, ◌>>=◌, ◌>>◌,
}
use aws_serverless_patterns.Dynamo.{Dynamo, Item}
use aws_serverless_patterns.LongRunning.Errors.{JobError, job_not_found}
use aws_serverless_patterns.LongRunning.Store.{
  create, get_record, increment_attempt, update_progress, set_status, attach_token,
}
use Prim.Native.String.{◌++◌ as concat}

abbrev pub Event : Type 0
Event = Fields

-- `_backoff_seconds`
unfoldable pub backoff_seconds : Host → Environment → ℤ → ℤ
backoff_seconds host env attempt =
    min_ℤ (int_env host env "POLL_INTERVAL_MAX_SECONDS" (pos 900))
      (scale (int_env host env "POLL_INTERVAL_BASE_SECONDS" (pos 30)) (2 ^ pos_part attempt))

-- `round(a / b)` of natural numbers, half to even, for a positive `b`
abbrev pub round_quotient : ℕ → ℕ → ℕ
round_quotient a b =
    let q = a / b in
    let r = 2 * (a % b) in if ltb r b || (nat_eq r b && nat_eq (q % 2) 0) then q else suc q

abbrev pub round_ratio : ℤ → ℕ → ℤ
round_ratio (pos a) b = pos (round_quotient a b)
round_ratio (negsuc a) b = sub_ℕ 0 (round_quotient (suc a) b)

-- A time to live in seconds, where the number of days is positive.
abbrev pub ttl_seconds : Host → Environment → Option ℤ
ttl_seconds host env =
    let ttl_days = int_env host env "JOB_STATE_TTL_DAYS" (pos 30) in
    if ltb_ℤ (pos 0) ttl_days then some (scale ttl_days 86400) else none

abbrev pub poll_status : Bool → ℤ → ℤ → String
poll_status fail_job attempt succeed_after =
    if fail_job then "FAILED" else if leb_ℤ succeed_after attempt then "SUCCEEDED" else "RUNNING"

-- The percentage before the status is looked at; `max(succeed_after, 1)` is at least 1.
abbrev pub percentage : ℤ → ℤ → ℤ
percentage attempt succeed_after =
    min_ℤ (pos 100) (round_ratio (scale attempt 100) (pos_part (max_ℤ (pos 1) succeed_after)))

unfoldable pub poll_progress : String → ℤ → ℤ → ℤ
poll_progress status attempt succeed_after =
    if status == "SUCCEEDED" || status == "COMPLETED"
    then pos 100
    else percentage attempt succeed_after

-- The `job` object that the state machine carries through the loop.
unfoldable pub job_object : Value → String → ℤ → Bool → ℤ → ℤ → Fields
job_object job_id status attempt exhausted progress next_poll = field "job_id" job_id (
    field "status" (str status) (
      field "attempt" (int attempt) (
        field "exhausted" (bool exhausted)
          (field "progress" (int progress) (field "next_poll_seconds" (int next_poll) end)))))

-- `record.get(name, default)` of an item
unfoldable pub attribute_or : Item → String → Value → Value
attribute_or item name default = elim (item name) [ none ↦ default | some v ↦ v ]

module _ {T : Type 0} (d : Dynamo T) (host : Host) (env : Environment) where
  abbrev Step : Type 0 → Type 0
  Step A = Exec JobError T A

  -- `spec.get("job_id") or _new_id("job")`
  abbrev pub job_id_of : Option Value → Step Value
  job_id_of given =
      if is_falsy given
      then (do hex ← draw_id host.uuid; pure (str (concat "job-" hex)))
      else pure (none_as_null given)

  unfoldable pub submit_job : Event → Step Fields
  submit_job spec = do
    job_id ← job_id_of (get "job_id" spec)
    given ← lift (int_of host (get_or spec "succeed_after_attempts" (int (pos 3))))
    let fail_job = truthy (get_or spec "fail_job" (bool false))
    let succeed_after = if ltb_ℤ given (pos 1) then pos 1 else given
    create d host job_id succeed_after fail_job (or_else (get "payload" spec) (obj end))
        (ttl_seconds host env)
    pure (job_object job_id "RUNNING" (pos 0) false (pos 0) (backoff_seconds host env (pos 0)))

  -- `(event.get("job") or {}).get("job_id")`, which must not be falsy
  unfoldable pub job_of : Event → Step Value
  job_of event = do
    job_id ← lift (dict_get (or_else (get "job" event) (obj end)) "job_id")
    raise_if (is_falsy job_id) (own job_not_found)
    pure (none_as_null job_id)

  unfoldable pub poll_job : Event → Step Fields
  poll_job event = do
    job_id ← job_of event
    found ← get_record d host job_id
    record' ← or_raise found (own job_not_found)
    attempt ← increment_attempt d host job_id
    succeed_after ← lift (int_of host (attribute_or record' "succeed_after_attempts" (int (pos 3))))
    let status =
        poll_status (truthy (attribute_or record' "fail_job" (bool false))) attempt succeed_after
    let progress = poll_progress status attempt succeed_after
    let exhausted =
        status == "RUNNING" && leb_ℤ (int_env host env "MAX_POLL_ATTEMPTS" (pos 20)) attempt
    update_progress d host job_id status progress
    pure (job_object job_id status attempt exhausted progress (backoff_seconds host env attempt))

  -- A missing job is looked for before a missing token.
  unfoldable pub request_signoff : Event → Step Fields
  request_signoff event = do
    job_id ← job_of event
    raise_if (is_falsy (get "task_token" event)) (own job_not_found)
    attach_token d host job_id (none_as_null (get "task_token" event))
    pure (field "job_id" job_id (field "signoff_status" (str "PENDING") end))

  unfoldable pub finalize : Event → Step Fields
  finalize event = do
    job_id ← job_of event
    set_status d host job_id "COMPLETED"
    approved_by ← lift (dict_get (or_else (get "signoff" event) (obj end)) "approved_by")
    pure (
        field "job_id" job_id
          (field "status" (str "COMPLETED") (field "signed_off_by" (none_as_null approved_by) end)))
