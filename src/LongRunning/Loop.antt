-- ===== src/LongRunning/Loop.antt =====
-- The loop of statemachine.asl.json: PollJob, EvaluateJob, WaitForJob.
pub mod Steps
pub mod Settles
use aws_serverless_patterns.Prelude.{
  ℕ, zero, suc, Bool, true, false, Option, none, some, if◌then◌else◌, String,
}
use aws_serverless_patterns.Py.Value.{Value, bool, obj, Fields, field, end, get, is_text}
use aws_serverless_patterns.Py.Host.{Host, Environment}
use aws_serverless_patterns.Py.Exec.{Exec, pure, ◌>>=◌}
use aws_serverless_patterns.Dynamo.{Dynamo}
use aws_serverless_patterns.LongRunning.Errors.{JobError}
use aws_serverless_patterns.LongRunning.Handlers.{Event, poll_job}

-- The states that EvaluateJob chooses from; `to_wait_for_job` is its default.
pub data Route : Type 0 where
  to_request_signoff to_job_failed to_job_timed_out to_wait_for_job : Route

abbrev is_true : Option Value → Bool
is_true (some (bool b)) = b
is_true v = false

unfoldable pub evaluate_job : Fields → Route
evaluate_job job =
    if is_text (get "status" job) "SUCCEEDED"
    then to_request_signoff
    else if is_text (get "status" job) "FAILED"
    then to_job_failed
    else if is_true (get "exhausted" job)
    then to_job_timed_out
    else to_wait_for_job

-- `"ResultSelector": { "job.$": "$.Payload" }`
abbrev pub carrying : Fields → Event
carrying job = field "job" (obj job) end

-- Where the execution goes on: back to the wait, or out of the loop.
abbrev pub follow :
    {T : Type 0}
    → Fields
    → Route
    → Exec JobError T (Route × Fields)
    → Exec JobError T (Route × Fields)
follow job to_wait_for_job rest = rest
follow job r rest = pure (r, job)

module _ {T : Type 0} (d : Dynamo T) (host : Host) (env : Environment) where
  -- At most `polls` polls; with none left the answer is the default route.
  unfoldable pub poll_loop : ℕ → Event → Exec JobError T (Route × Fields)
  poll_loop zero event = pure (to_wait_for_job, event)
  poll_loop (suc polls) event = do
    job ← poll_job d host env event
    follow job (evaluate_job job) (poll_loop polls (carrying job))
