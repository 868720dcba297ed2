-- ===== src/LongRunning/Machine.antt =====
-- patterns/long-running/statemachine.asl.json: an execution as steps of its states, with the answer
-- of the person who signs off, or its absence, as steps too. A task's call is one whole
-- step, which may be repeated any number of times, and given up after any call, whatever the task
-- answered. A call that is cut off between two writes, or that overlaps another for the same job, is
-- no step. Between its steps other executions run,
-- for other jobs over the same table.
mod Stage
mod Calls
mod Advance
mod Choose
mod Elsewhere
pub mod Guarantee
pub mod Run
use aws_serverless_patterns.Prelude.{ℕ, String, some, false, ◌≡◌, ◌≢◌, ◌==◌}
use aws_serverless_patterns.Py.Value.{
  Value, str, obj, nil, Fields, field, end, get, set, none_as_null,
}
use aws_serverless_patterns.Py.Host.{Host, Environment}
use aws_serverless_patterns.Py.Exec.{ok, World, Exec}
use aws_serverless_patterns.Dynamo.{Dynamo}
use aws_serverless_patterns.LongRunning.Errors.{JobError}
use aws_serverless_patterns.LongRunning.Handlers
use aws_serverless_patterns.LongRunning.Frame.{job_key}
use Prim.Native.String.{◌++◌ as concat}
use aws_serverless_patterns.LongRunning.Handlers.{Event}
use aws_serverless_patterns.LongRunning.Loop
use aws_serverless_patterns.LongRunning.Loop.{
  Route, to_request_signoff, to_job_failed, to_job_timed_out, to_wait_for_job, carrying,
}

pub data Task : Type 0 where
  submit_job poll_job request_signoff finalize : Task

-- The states by name; RequestSignoff is `running` while its function runs, and then waits for the
-- callback. The timeout of the execution, and a Finalize that is given up, abort it.
pub data State : Type 0 where
  running : Task → State
  wait_for_job evaluate_job awaiting_callback : State
  completed job_failed job_timed_out signoff_timed_out aborted : State

pub record Execution (T : Type 0) : Type 0 where
  pub state : State
  pub event : Event
  pub world : World T

-- `Next`, and `End` of Finalize
abbrev pub next_of : Task → State
next_of submit_job = wait_for_job
next_of poll_job = State.evaluate_job
next_of request_signoff = awaiting_callback
next_of finalize = completed

-- `Next` of the `Catch` rule for `States.ALL`
abbrev pub caught_by : Task → State
caught_by submit_job = job_failed
caught_by poll_job = job_failed
caught_by request_signoff = job_failed
caught_by finalize = aborted

-- `Choices` and `Default` of EvaluateJob
abbrev pub chosen : Route → State
chosen to_request_signoff = running request_signoff
chosen to_job_failed = job_failed
chosen to_job_timed_out = job_timed_out
chosen to_wait_for_job = wait_for_job

-- `Parameters`: RequestSignoff gives its token and the job, any other task all the data.
unfoldable pub payload_of : Task → String → Event → Event
payload_of request_signoff token event =
    field "task_token" (str token) (field "job" (none_as_null (get "job" event)) end)
payload_of task token event = event

-- `ResultSelector` and `ResultPath`; RequestSignoff takes its result from the callback.
unfoldable pub with_result : Task → Fields → Event → Event
with_result submit_job r event = carrying r
with_result poll_job r event = carrying r
with_result request_signoff r event = event
with_result finalize r event = set "result" (obj (field "result" (obj r) end)) event

-- A call that is for another job than `k`; a submission may make up its id, which then is another.
abbrev pub IsOther : Host → Task → Event → String → Type 0
IsOther host submit_job event k =
    (none_as_null (get "job_id" event) ≢ str k) × ((n : ℕ) → concat "job-" (host.uuid n) ≢ k)
IsOther host task event k = job_key event ≢ str k

module _ {T : Type 0} (d : Dynamo T) (host : Host) (env : Environment) where
  unfoldable pub invoke : Task → Event → Exec JobError T Fields
  invoke submit_job = Handlers.submit_job d host env
  invoke poll_job = Handlers.poll_job d host env
  invoke request_signoff = Handlers.request_signoff d host env
  invoke finalize = Handlers.finalize d host env

  abbrev pub called : Task → String → Execution T → World T
  called task token e = (invoke task (payload_of task token e.event) e.world).1

module _ {T : Type 0} (d : Dynamo T) (host : Host) (env : Environment) (k : String) where
  -- The steps of an execution for the job `k`. A token is a text that is not empty.
  pub data Step (e e' : Execution T) : Type 0 where
    succeed :
        (task : Task) (token : String) (r : Fields)
        → (token == "") ≡ false
        → e.state ≡ running task
        → (invoke d host env task (payload_of task token e.event) e.world).0 ≡ ok r
        → e' ≡ record {
          state = next_of task;
          event = with_result task r e.event;
          world = called d host env task token e;
        }
        → Step e e'
    repeat :
        (task : Task) (token : String)
        → (token == "") ≡ false
        → e.state ≡ running task
        → e' ≡ record e { world = called d host env task token e }
        → Step e e'
    give_up :
        (task : Task) (token : String) (fault : Fields)
        → (token == "") ≡ false
        → e.state ≡ running task
        → e' ≡ record {
          state = caught_by task;
          event = set "error" (obj fault) e.event;
          world = called d host env task token e;
        }
        → Step e e'
    wake : e.state ≡ wait_for_job → e' ≡ record e { state = running poll_job } → Step e e'
    evaluate :
        (job : Fields)
        → e.state ≡ State.evaluate_job
        → get "job" e.event ≡ some (obj job)
        → e' ≡ record e { state = chosen (Loop.evaluate_job job) }
        → Step e e'
    -- SendTaskSuccess, SendTaskFailure, and neither in time
    sign_off :
        (answer : Value)
        → e.state ≡ awaiting_callback
        → e' ≡ record e { state = running finalize; event = set "signoff" answer e.event }
        → Step e e'
    refuse :
        (fault : Fields)
        → e.state ≡ awaiting_callback
        → e' ≡ record e { state = job_failed; event = set "error" (obj fault) e.event }
        → Step e e'
    time_out :
        (fault : Fields)
        → e.state ≡ awaiting_callback
        → e' ≡ record e { state = signoff_timed_out; event = set "error" (obj fault) e.event }
        → Step e e'
    -- A call of another execution
    elsewhere :
        (task : Task) (event : Event)
        → IsOther host task event k
        → e' ≡ record e { world = (invoke d host env task event e.world).1 }
        → Step e e'
    expire : e' ≡ record e { state = aborted } → Step e e'

  pub data Reach (input : Event) (w : World T) : Execution T → Type 0 where
    begin : Reach input w (record { state = running submit_job; event = input; world = w })
    later : {e e' : Execution T} → Reach input w e → Step e e' → Reach input w e'
