-- ===== src/LongRunning/Tests.antt =====
-- Each theorem of the pattern at one job.
use aws_serverless_patterns.Prelude.{none, refl, arith, true, false, ◌+◌}
use aws_serverless_patterns.Prelude.Int.{pos, ◌≤ℤ◌}
use aws_serverless_patterns.Py.Value.{
  Fields, float_free, field, obj, str, int, end, get, float_free_fields, Value, float,
}
use aws_serverless_patterns.Py.Host.{Environment, int_env, int_of, dict_get}
use aws_serverless_patterns.Py.Sample.{sample_host, sample_world}
use aws_serverless_patterns.Py.Exec.{World, attribute_error, type_error}
use aws_serverless_patterns.Py.Ends.{Ends, Fails}
use aws_serverless_patterns.Dynamo.Model.{Table, table_dynamo}
use aws_serverless_patterns.LongRunning.View.{Job, Shows}
use aws_serverless_patterns.LongRunning.Store.Creates.{submitted}
use aws_serverless_patterns.LongRunning.Handlers.{
  submit_job, finalize, job_object, backoff_seconds, poll_progress,
}
use aws_serverless_patterns.LongRunning.Polling.{
  Carries, Submits, submit_job-Ends, finalize_refuses_text, submit_job_refuses_floats,
}
use aws_serverless_patterns.LongRunning.Loop.{poll_loop, to_request_signoff, to_job_timed_out}
use aws_serverless_patterns.LongRunning.Loop.Settles.{
  poll_loop_succeeds, succeeded, running_at, poll_loop_times_out,
}
use aws_serverless_patterns.LongRunning.Machine.Guarantee.{
  SignedOff, OutOfPolls, completed-SignedOff, job_timed_out-OutOfPolls,
}
use aws_serverless_patterns.LongRunning.Machine.Run.{
  ones_host, ones, asking, asking_twice, asking-Submits, asking_twice-Submits, signed, timed_out,
  signed-Trace, timed_out-Trace, timed_out_lem,
}
use aws_serverless_patterns.LongRunning.Waits.{wait_cap, backoff_seconds_grows}
use aws_serverless_patterns.Dynamo.Frame.{HoldsItem}

abbrev no_env : Environment
no_env name = none

abbrev submission : Fields
submission = field "job_id" (str "job-1") (field "succeed_after_attempts" (int (pos 2)) end)

abbrev event : Fields
event = field "job" (obj (field "job_id" (str "job-1") end)) (field "task_token" (str "tok") end)

abbrev empty : Table
empty = λ k. none

submission-Submits : Submits sample_host submission "job-1" (pos 2) (obj end)
unfolding get int_of
submission-Submits = record { named = refl; read = refl; counted = refl; carried = refl }

event-Carries : Carries event "job-1"
unfolding get dict_get
event-Carries = record { named = refl; read = refl }

abbrev started_world : World Table
started_world = (submit_job table_dynamo sample_host no_env submission (sample_world empty)).1

abbrev job : Job
job = submitted (pos 2) false

job-Shows : Shows table_dynamo "job-1" job started_world.cloud
unfolding get float_free
job-Shows =
    (submit_job-Ends table_dynamo sample_host no_env submission submission-Submits
      (sample_world empty) refl).after

poll_loop_succeeds_example :
    Ends
      (Shows table_dynamo "job-1")
      (poll_loop table_dynamo sample_host no_env 5 event)
      started_world
      (
        to_request_signoff,
        job_object
            (str "job-1")
            "SUCCEEDED"
            (pos 2)
            false
            (pos 100)
            (backoff_seconds sample_host no_env (pos 2)),
      )
      (succeeded 2 job)
unfolding int_env
poll_loop_succeeds_example =
    poll_loop_succeeds table_dynamo sample_host no_env 1 5 event event-Carries started_world job
      job-Shows refl refl (omega arith) (omega arith)

-- A job that outlives the polls, and one that is to fail.
abbrev slow_submission : Fields
slow_submission = field "job_id" (str "job-1") (field "succeed_after_attempts" (int (pos 30)) end)

slow-Submits : Submits sample_host slow_submission "job-1" (pos 30) (obj end)
unfolding get int_of
slow-Submits = record { named = refl; read = refl; counted = refl; carried = refl }

abbrev slow_world : World Table
slow_world = (submit_job table_dynamo sample_host no_env slow_submission (sample_world empty)).1

abbrev slow_job : Job
slow_job = submitted (pos 30) false

slow-Shows : Shows table_dynamo "job-1" slow_job slow_world.cloud
unfolding get float_free
slow-Shows =
    (submit_job-Ends table_dynamo sample_host no_env slow_submission slow-Submits
      (sample_world empty) refl).after

poll_loop_times_out_example :
    Ends
      (Shows table_dynamo "job-1")
      (poll_loop table_dynamo sample_host no_env 25 event)
      slow_world
      (
        to_job_timed_out,
        job_object
            (str "job-1")
            "RUNNING"
            (pos 20)
            true
            (poll_progress "RUNNING" (pos 20) (pos 30))
            (backoff_seconds sample_host no_env (pos 20)),
      )
      (running_at 20 slow_job)
unfolding int_env
poll_loop_times_out_example =
    poll_loop_times_out table_dynamo sample_host no_env 19 25 30 event event-Carries slow_world
      slow_job slow-Shows refl refl (omega arith) refl (omega arith)

backoff_seconds_grows_example :
    (backoff_seconds sample_host no_env (pos 3) ≤ℤ backoff_seconds sample_host no_env (pos (3 + 4)))
    × (backoff_seconds sample_host no_env (pos 3) ≤ℤ wait_cap sample_host no_env)
unfolding int_env
backoff_seconds_grows_example = backoff_seconds_grows sample_host no_env 30 3 4 refl

completed-SignedOff_example :
    SignedOff table_dynamo "job-1" (pos 1) false signed.event signed.world.cloud
unfolding get float_free
completed-SignedOff_example =
    completed-SignedOff table_dynamo ones_host ones asking asking-Submits refl signed signed-Trace
      refl

job_timed_out-OutOfPolls_example :
    OutOfPolls table_dynamo "job-1" (pos 2) false (pos 1) timed_out.world.cloud
unfolding get int_env float_free
job_timed_out-OutOfPolls_example =
    job_timed_out-OutOfPolls table_dynamo ones_host ones asking_twice asking_twice-Submits refl
      timed_out timed_out-Trace timed_out_lem

abbrev answered : Fields
answered =
    field "job" (obj (field "job_id" (str "job-1") end)) (field "signoff" (str "looks fine") end)

answered-Carries : Carries answered "job-1"
unfolding get dict_get
answered-Carries = record { named = refl; read = refl }

finalize_refuses_text_example :
    Fails
      (Shows table_dynamo "job-1")
      (finalize table_dynamo sample_host no_env answered)
      started_world
      attribute_error
      (record job { status = "COMPLETED" })
unfolding get
finalize_refuses_text_example =
    finalize_refuses_text table_dynamo sample_host no_env answered answered-Carries started_world
      job-Shows "looks fine" refl refl

abbrev half : Value
half = obj (field "ratio" (float (record { mantissa = pos 5; scale = 1 })) end)

abbrev half_submission : Fields
half_submission = field "job_id" (str "job-1") (field "payload" half end)

half-Submits : Submits sample_host half_submission "job-1" (pos 3) half
unfolding get int_of
half-Submits = record { named = refl; read = refl; counted = refl; carried = refl }

submit_job_refuses_floats_example :
    Fails
      (HoldsItem table_dynamo "job-1")
      (submit_job table_dynamo sample_host no_env half_submission)
      (sample_world empty)
      type_error
      none
unfolding float_free float_free_fields
submit_job_refuses_floats_example =
    submit_job_refuses_floats table_dynamo sample_host no_env half_submission half-Submits
      (sample_world empty) refl "job-1"
