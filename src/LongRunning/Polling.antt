-- ===== src/LongRunning/Polling.antt =====
-- One call of each handler, on the abstract job.
use aws_serverless_patterns.Prelude.{
  suc, String, Bool, true, false, ◌&&◌, Option, some, ◌≡◌, refl, ◌==◌, if◌then◌else◌,
}
use aws_serverless_patterns.Prelude.Int.{ℤ, pos, leb_ℤ, ltb_ℤ}
use aws_serverless_patterns.Py.Value.{
  none_as_null, Value, bool, int, str, obj, Fields, end, field, get, get_or, or_else, truthy,
  float_free,
}
use aws_serverless_patterns.Py.Host.{Host, Environment, int_env, int_of, dict_get}
use aws_serverless_patterns.Py.Exec.{World, ok, attribute_error, type_error, ◌>>=◌}
use aws_serverless_patterns.Py.Ends.{
  Ends, Ends-bind, Ends-pure, Ends-lift, Ends-raise_if, Ends-or_raise, Fails, Fails-bind,
  Fails-first, Fails-lift,
}
use aws_serverless_patterns.Dynamo.{Dynamo, Item}
use aws_serverless_patterns.LongRunning.Errors.{JobError}
use aws_serverless_patterns.LongRunning.View.{Job, Shows}
use aws_serverless_patterns.LongRunning.Store.Refines.{
  increment_attempt-Ends, update_progress-Ends, get_record-Ends, set_status-Ends, attach_token-Ends,
}
use aws_serverless_patterns.Dynamo.Frame.{HoldsItem}
use aws_serverless_patterns.LongRunning.Store.Refused.{create-Fails}
use aws_serverless_patterns.LongRunning.Store.Creates.{create-Ends, submitted}
use aws_serverless_patterns.LongRunning.Handlers.{
  Event, submit_job, poll_job, request_signoff, finalize, job_of, job_object, poll_status,
  poll_progress, backoff_seconds, ttl_seconds, attribute_or,
}

-- The event carries the job `k`.
pub record Carries (event : Event) (k : String) : Type 0 where
  pub named : (k == "") ≡ false
  pub read :
      dict_get {E = JobError} (or_else (get "job" event) (obj end)) "job_id" ≡ ok (some (str k))

found_attribute :
    (item : Item) (name : String) (default : Value) {v : Value}
    → item name ≡ some v
    → attribute_or item name default ≡ v
unfolding attribute_or
found_attribute item name default h = rw (h, attribute_or)

-- What a poll makes of the job.
abbrev pub status_after : Job → String
status_after job = poll_status job.fails (pos (suc job.attempts)) job.succeed_after

abbrev pub polled : Job → Job
polled job = record job {
  status = status_after job;
  attempts = suc job.attempts;
  progress = poll_progress (status_after job) (pos (suc job.attempts)) job.succeed_after;
}

abbrev pub max_polls : Host → Environment → ℤ
max_polls host env = int_env host env "MAX_POLL_ATTEMPTS" (pos 20)

abbrev pub exhausted_after : Host → Environment → Job → Bool
exhausted_after host env job =
    status_after job == "RUNNING" && leb_ℤ (max_polls host env) (pos (suc job.attempts))

abbrev pub poll_answer : Host → Environment → String → Job → Fields
poll_answer host env k job =
    job_object (str k) (status_after job) (pos (suc job.attempts)) (exhausted_after host env job)
      (polled job).progress (backoff_seconds host env (pos (suc job.attempts)))

module _ {T : Type 0} (d : Dynamo T) (host : Host) (env : Environment) {k : String} (event : Event)
    (c : Carries event k) (w : World T) {job : Job} (h : Shows d k job w.cloud) where
  pub job_of-Ends : Ends (Shows d k) (job_of d host env event) w (str k) job
  unfolding job_of
  job_of-Ends =
      Ends-bind _ _ w (Ends-lift _ _ c.read h)
        λ h1. Ends-bind _ _ _ (Ends-raise_if _ _ _ (rw c.named) h1) λ h2. Ends-pure _ _ h2

  -- A poll of a job that is in the table counts one attempt, records the status and the progress
  -- that belong to it, and returns them with the next wait.
  pub poll_job-Ends :
      Ends (Shows d k) (poll_job d host env event) w (poll_answer host env k job) (polled job)
  unfolding poll_job int_of
  poll_job-Ends = Ends-bind _ _ w job_of-Ends λ h1.
      Ends-bind _ _ _ (get_record-Ends d host k c.named _ h1) λ h2.
        Ends-bind _ _ _ (Ends-or_raise _ _ _ refl h2) λ h3.
          Ends-bind _ _ _ (increment_attempt-Ends d host k c.named _ h3) λ h4.
            Ends-bind _ _ _ {a = job.succeed_after}
              (Ends-lift _ _ (rw (found_attribute h1.item _ (int (pos 3)) h1.succeed_after_is) refl)
                h4)
              λ h5. rw (found_attribute h1.item "fail_job" (bool false) h1.fails_is) (
                Ends-bind _ _ _ (update_progress-Ends d host k c.named _ _ _ h5)
                  λ h6. Ends-pure _ _ h6)

  -- A sign-off request for a job in the table stores the token and marks the sign-off pending.
  pub request_signoff-Ends :
      (token : String)
      → get "task_token" event ≡ some (str token)
      → (token == "") ≡ false
      → Ends
          (Shows d k)
          (request_signoff d host env event)
          w
          (field "job_id" (str k) (field "signoff_status" (str "PENDING") end))
          (record job { token = some (str token); signoff = some (str "PENDING") })
  unfolding request_signoff
  request_signoff-Ends token given real = rw given (
      Ends-bind _ _ w job_of-Ends λ h1.
        Ends-bind _ _ _ (Ends-raise_if _ _ _ (rw real) h1)
          λ h2. Ends-bind _ _ _ (attach_token-Ends d host k c.named _ _ h2) λ h3. Ends-pure _ _ h3)

  -- `finalize` marks a job of the table COMPLETED, and names who signed it off.
  pub finalize-Ends :
      (approved_by : Option Value)
      → dict_get {E = JobError} (or_else (get "signoff" event) (obj end)) "approved_by"
        ≡ ok approved_by
      → Ends
          (Shows d k)
          (finalize d host env event)
          w
          (field "job_id" (str k) (
            field "status"
              (str "COMPLETED")
              (field "signed_off_by" (none_as_null approved_by) end)))
          (record job { status = "COMPLETED" })
  unfolding finalize
  finalize-Ends approved_by given = Ends-bind _ _ w job_of-Ends λ h1.
      Ends-bind _ _ _ (set_status-Ends d host k c.named _ _ h1)
        λ h2. Ends-bind _ _ _ (Ends-lift _ _ given h2) λ h3. Ends-pure _ _ h3

  -- Finalize of a job in the table, whose sign-off was answered with a text that is not empty,
  -- marks the job COMPLETED and then raises AttributeError.
  pub finalize_refuses_text :
      (answer : String)
      → get "signoff" event ≡ some (str answer)
      → (answer == "") ≡ false
      → Fails
          (Shows d k)
          (finalize d host env event)
          w
          attribute_error
          (record job { status = "COMPLETED" })
  unfolding finalize dict_get
  finalize_refuses_text answer given real = Fails-bind _ _ w job_of-Ends λ h1.
      Fails-bind _ _ _ (set_status-Ends d host k c.named _ _ h1)
        λ h2. Fails-first _ _ _ (Fails-lift _ _ (rw (given, real)) h2)

-- What the job is submitted with.
pub record Submits (host : Host) (event : Event) (k : String) (n : ℤ) (payload : Value)
    : Type 0 where
  pub named : (k == "") ≡ false
  pub read : get "job_id" event ≡ some (str k)
  pub counted :
      int_of {E = JobError} host (get_or event "succeed_after_attempts" (int (pos 3))) ≡ ok n
  pub carried : or_else (get "payload" event) (obj end) ≡ payload

abbrev pub at_least_one : ℤ → ℤ
at_least_one n = if ltb_ℤ n (pos 1) then pos 1 else n

module _ {T : Type 0} (d : Dynamo T) (host : Host) (env : Environment) {k : String} (event : Event)
    {n : ℤ} {payload : Value} (c : Submits host event k n payload) (w : World T) where
  -- Whatever the table holds under the id, a submission whose payload holds no float leaves a job
  -- that is submitted, with no attempts, and returns it as running with the base wait.
  pub submit_job-Ends :
      float_free payload ≡ true
      → Ends
          (Shows d k)
          (submit_job d host env event)
          w
          (job_object (str k) "RUNNING" (pos 0) false (pos 0) (backoff_seconds host env (pos 0)))
          (submitted (at_least_one n) (truthy (get_or event "fail_job" (bool false))))
  unfolding submit_job ◌>>=◌
  submit_job-Ends plain =
      let new =
        create-Ends d host k c.named (at_least_one n)
          (truthy (get_or event "fail_job" (bool false))) payload plain (ttl_seconds host env) w in
      record {
        returned = rw (c.read, c.named, c.counted, c.carried, new.returned);
        after = rw (c.read, c.named, c.counted, c.carried, new.returned) new.after;
      }

  -- A submission that names its job by a text that is not empty, whose count int reads and whose
  -- payload holds a float, raises TypeError, and leaves every item as it was.
  pub submit_job_refuses_floats :
      float_free payload ≡ false
      → (j : String)
      → Fails (HoldsItem d j) (submit_job d host env event) w type_error (d.item w.cloud j)
  unfolding submit_job ◌>>=◌
  submit_job_refuses_floats floats j =
      let new =
        create-Fails d host k j (at_least_one n) (truthy (get_or event "fail_job" (bool false)))
          payload floats (ttl_seconds host env) w in
      record {
        raised = rw (c.read, c.named, c.counted, c.carried, new.raised);
        after = rw (c.read, c.named, c.counted, c.carried, new.raised) new.after;
      }
