-- ===== src/LongRunning/Machine/Elsewhere.antt =====
-- What other executions leave alone: the item of this job, and so what holds in each state.
use aws_serverless_patterns.Prelude.{String, Option, ◌≡◌, refl, ◌∙◌, Bool}
use aws_serverless_patterns.Py.Host.{Host, Environment}
use aws_serverless_patterns.Py.Exec.{World}
use aws_serverless_patterns.Py.Keeps.{Keeps}
use aws_serverless_patterns.Dynamo.{Dynamo, Item}
use aws_serverless_patterns.Dynamo.Frame.{HoldsItem}
use aws_serverless_patterns.LongRunning.View.{Job, Shows}
use aws_serverless_patterns.LongRunning.Handlers.{Event}
use aws_serverless_patterns.LongRunning.Frame.{
  submit_job-Holds, poll_job-Holds, request_signoff-Holds, finalize-Holds,
}
use aws_serverless_patterns.LongRunning.Machine.{
  Task, submit_job, poll_job, request_signoff, finalize, State, running, wait_for_job, evaluate_job,
  awaiting_callback, completed, job_failed, job_timed_out, signoff_timed_out, aborted, invoke,
  IsOther,
}
use aws_serverless_patterns.LongRunning.Machine.Stage.{Showing, Stage}
use aws_serverless_patterns.Prelude.Int.{ℤ}

module _ {T : Type 0} (d : Dynamo T) (host : Host) (env : Environment) (k : String) where
  task-Holds :
      (x : Option Item) (task : Task) (event : Event)
      → IsOther host task event k
      → Keeps (HoldsItem d k x) (invoke d host env task event)
  unfolding invoke
  task-Holds x submit_job event other = submit_job-Holds d host env k x event other.0 other.1
  task-Holds x poll_job event other = poll_job-Holds d host env k x event other
  task-Holds x request_signoff event other = request_signoff-Holds d host env k x event other
  task-Holds x finalize event other = finalize-Holds d host env k x event other

  pub job_frame :
      (task : Task) (event : Event) (w : World T)
      → IsOther host task event k
      → d.item (invoke d host env task event w).1.cloud k ≡ d.item w.cloud k
  job_frame task event w other = (task-Holds (d.item w.cloud k) task event other).at w refl

module _ {T : Type 0} {d : Dynamo T} {k : String} {t t' : T} (same : d.item t' k ≡ d.item t k) where
  Shows-same : {job : Job} → Shows d k job t → Shows d k job t'
  Shows-same h = record {
    item = h.item;
    found = same ∙ h.found;
    status_is = h.status_is;
    attempts_is = h.attempts_is;
    progress_is = h.progress_is;
    succeed_after_is = h.succeed_after_is;
    fails_is = h.fails_is;
    token_is = h.token_is;
    signoff_is = h.signoff_is;
  }

  Showing-same : {F : Job → Type 0} → Showing d k F t → Showing d k F t'
  Showing-same h = record { job = h.job; shows = Shows-same h.shows; fact = h.fact }

module _ {T : Type 0} (d : Dynamo T) (k : String) {t t' : T} (same : d.item t' k ≡ d.item t k)
    (host : Host) (env : Environment) (n : ℤ) (fails : Bool) (input event : Event) where
  pub elsewhere_lem :
      (state : State)
      → Stage d host env k n fails input state event t
      → Stage d host env k n fails input state event t'
  elsewhere_lem (running submit_job) h = h
  elsewhere_lem (running poll_job) h = (h.0, Showing-same same h.1)
  elsewhere_lem (running request_signoff) h = (h.0, Showing-same same h.1)
  elsewhere_lem (running finalize) h = (h.0, h.1, Showing-same same h.2)
  elsewhere_lem wait_for_job h = (h.0, Showing-same same h.1)
  elsewhere_lem evaluate_job h = record {
    job = h.job;
    named = h.named;
    tracked = h.tracked;
    shows = Shows-same same h.shows;
    carried = h.carried;
  }
  elsewhere_lem awaiting_callback h = (h.0, Showing-same same h.1)
  elsewhere_lem completed h = (h.0, Showing-same same h.1)
  elsewhere_lem job_timed_out h = Showing-same same h
  elsewhere_lem job_failed h = tt
  elsewhere_lem signoff_timed_out h = tt
  elsewhere_lem aborted h = tt
