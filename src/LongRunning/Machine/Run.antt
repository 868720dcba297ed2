-- ===== src/LongRunning/Machine/Run.antt =====
-- Two executions, for the tests: a job that is signed off, and one that outlives its polls.
use aws_serverless_patterns.Prelude.{eq_iff, arith, ◌≡◌, refl, ◌∙◌, ap, sym, some, none, Option}
use aws_serverless_patterns.Prelude.Int.{pos, scale, ◌+ℤ◌}
use aws_serverless_patterns.Py.Value.{
  Value, Fields, field, obj, end, get, set, str, int, float_free, float_free_fields,
}
use aws_serverless_patterns.Py.Host.{Host, Environment, dict_get, int_of, int_env}
use aws_serverless_patterns.Py.Exec.{Result, ok, err, ◌>>=◌}
use aws_serverless_patterns.Py.Sample.{sample_host, sample_world}
use aws_serverless_patterns.Dynamo.Client.{get_item, put_item, update_item}
use aws_serverless_patterns.Dynamo.{add_to}
use aws_serverless_patterns.Dynamo.Model.{Table, table_dynamo}
use aws_serverless_patterns.LongRunning.Handlers
use aws_serverless_patterns.LongRunning.Handlers.{
  Event, job_of, job_object, attribute_or, backoff_seconds, poll_progress,
}
use aws_serverless_patterns.LongRunning.Store
use aws_serverless_patterns.LongRunning.Loop
use aws_serverless_patterns.LongRunning.Polling.{Submits}
use aws_serverless_patterns.LongRunning.Machine.{
  Task, submit_job, poll_job, request_signoff, finalize, State, running, wait_for_job, Execution,
  Step, Reach, next_of, chosen, payload_of, with_result, invoke,
}

-- Every integer setting is 1.
abbrev pub ones_host : Host
ones_host = record sample_host { parse_int = λ s. some (pos 1) }

abbrev pub ones : Environment
ones name = some "1"

abbrev pub asking : Fields
asking = field "job_id" (str "job-1") (field "succeed_after_attempts" (int (pos 1)) end)

abbrev pub asking_twice : Fields
asking_twice = field "job_id" (str "job-1") (field "succeed_after_attempts" (int (pos 2)) end)

pub asking-Submits : Submits ones_host asking "job-1" (pos 1) (obj end)
unfolding get int_of
asking-Submits = record { named = refl; read = refl; counted = refl; carried = refl }

pub asking_twice-Submits : Submits ones_host asking_twice "job-1" (pos 2) (obj end)
unfolding get int_of
asking_twice-Submits = record { named = refl; read = refl; counted = refl; carried = refl }

abbrev returned_fields : {E : Type 0} → Result E Fields → Fields
returned_fields (ok r) = r
returned_fields (err e) = end

abbrev begun : Event → Execution Table
begun input = record { state = running submit_job; event = input; world = sample_world (λ k. none) }

-- The execution after one more task that returns.
abbrev returns : Task → Execution Table → Execution Table
returns task e =
    let (r, w) = invoke table_dynamo ones_host ones task (payload_of task "tok" e.event) e.world in
    record { state = next_of task; event = with_result task (returned_fields r) e.event; world = w }

-- After the wait, a poll and the choice.
abbrev polled_once : Execution Table → Execution Table
polled_once e = returns poll_job (record e { state = running poll_job })

abbrev job_fields : Option Value → Fields
job_fields (some (obj fs)) = fs
job_fields v = end

abbrev chooses : Execution Table → Execution Table
chooses e = record e { state = chosen (Loop.evaluate_job (job_fields (get "job" e.event))) }

abbrev signs : Execution Table → Execution Table
signs e = record e {
  state = running finalize;
  event = set "signoff" (obj (field "approved_by" (str "ada") end)) e.event;
}

abbrev other_event : Event
other_event = field "job" (obj (field "job_id" (str "job-2") end)) end

-- Another execution finalizes its job meanwhile.
abbrev joined : Execution Table → Execution Table
joined e = record e { world = (invoke table_dynamo ones_host ones finalize other_event e.world).1 }

abbrev pub signed : Execution Table
signed = returns finalize (
    signs (
      returns request_signoff (chooses (polled_once (joined (returns submit_job (begun asking)))))))

abbrev pub timed_out : Execution Table
timed_out = chooses (polled_once (returns submit_job (begun asking_twice)))

abbrev Trace : Event → Execution Table → Type 0
Trace input = Reach table_dynamo ones_host ones "job-1" input (sample_world (λ k. none))

module _ {input : Event} {e : Execution Table} (path : Trace input e) where
  goes :
      (task : Task) (r : Fields)
      → e.state ≡ running task
      → (invoke table_dynamo ones_host ones task (payload_of task "tok" e.event) e.world).0 ≡ ok r
      → Trace input (returns task e)
  goes task r s returned = Reach.later path (
      Step.succeed task "tok" _ refl s (returned ∙ ap (λ x. ok (returned_fields x)) (sym returned))
        refl)

  wakes : e.state ≡ wait_for_job → Trace input (record e { state = running poll_job })
  wakes s = Reach.later path (Step.wake s refl)

  evaluates :
      (job : Fields)
      → e.state ≡ State.evaluate_job
      → get "job" e.event ≡ some (obj job)
      → Trace input (record e { state = chosen (Loop.evaluate_job job) })
  evaluates job s found = Reach.later path (Step.evaluate job s found refl)

  signs_off : e.state ≡ State.awaiting_callback → Trace input (signs e)
  signs_off s = Reach.later path (Step.sign_off _ s refl)

  joins : Trace input (joined e)
  joins = Reach.later path (
      Step.elsewhere finalize other_event
        (unfold get dict_get in λ same. ground (arith, eq_iff "job-1" "job-2")) refl)

pub signed-Trace : Trace asking signed
unfolding invoke payload_of with_result Handlers.submit_job Handlers.poll_job
    Handlers.request_signoff Handlers.finalize job_of job_object attribute_or backoff_seconds
    poll_progress dict_get int_of int_env get set scale ◌+ℤ◌ add_to Store.new_item ◌>>=◌ float_free
    float_free_fields Loop.evaluate_job Store.create Store.get_record Store.increment_attempt
    Store.update_progress Store.set_status Store.attach_token get_item put_item update_item
signed-Trace =
    goes
      (signs_off
        (goes
          (evaluates
            (goes (wakes (joins (goes Reach.begin submit_job _ refl refl)) refl) poll_job _ refl
              refl)
            _ refl refl)
          request_signoff _ refl refl)
        refl)
      finalize _ refl refl

pub timed_out-Trace : Trace asking_twice timed_out
unfolding invoke payload_of with_result Handlers.submit_job Handlers.poll_job job_of job_object
    attribute_or backoff_seconds poll_progress dict_get int_of int_env get set scale ◌+ℤ◌ add_to
    Store.new_item ◌>>=◌ float_free float_free_fields Loop.evaluate_job Store.create
    Store.get_record Store.increment_attempt Store.update_progress get_item put_item update_item
timed_out-Trace =
    evaluates (goes (wakes (goes Reach.begin submit_job _ refl refl) refl) poll_job _ refl refl) _
      refl refl

pub timed_out_lem : timed_out.state ≡ State.job_timed_out
unfolding invoke payload_of with_result Handlers.submit_job Handlers.poll_job job_of job_object
    attribute_or backoff_seconds poll_progress dict_get int_of int_env get set scale ◌+ℤ◌ add_to
    Store.new_item ◌>>=◌ float_free float_free_fields Loop.evaluate_job Store.create
    Store.get_record Store.increment_attempt Store.update_progress get_item put_item update_item
timed_out_lem = refl
