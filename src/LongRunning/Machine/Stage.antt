-- ===== src/LongRunning/Machine/Stage.antt =====
-- What holds in each state of the machine.
use aws_serverless_patterns.Prelude.{String, Bool, true, false, some, ◌≡◌, ◌==◌}
use aws_serverless_patterns.Prelude.Int.{ℤ, pos, leb_ℤ}
use aws_serverless_patterns.Py.Value.{Value, str, get}
use aws_serverless_patterns.Py.Host.{Host, Environment}
use aws_serverless_patterns.Dynamo.{Dynamo}
use aws_serverless_patterns.LongRunning.View.{Job, Shows}
use aws_serverless_patterns.LongRunning.Handlers.{Event}
use aws_serverless_patterns.LongRunning.Loop.{carrying}
use aws_serverless_patterns.LongRunning.Polling.{Carries, poll_answer, polled, max_polls}
use aws_serverless_patterns.LongRunning.Machine.{
  submit_job, poll_job, request_signoff, finalize, State, running, wait_for_job, evaluate_job,
  awaiting_callback, completed, job_timed_out,
}

-- The item of `k` shows a job with the fact.
pub record Showing {T : Type 0} (d : Dynamo T) (k : String) (F : Job → Type 0) (t : T)
    : Type 0 where
  pub job : Job
  pub shows : Shows d k job t
  pub fact : F job

pub Showing-map :
    {T : Type 0} {d : Dynamo T} {k : String} {F G : Job → Type 0} {t : T}
    → ((job : Job) → F job → G job)
    → Showing d k F t
    → Showing d k G t
Showing-map turns h = record { job = h.job; shows = h.shows; fact = turns h.job h.fact }

-- What the submission asked for, which no state changes.
module _ (n : ℤ) (fails : Bool) where
  pub record IsTracked (job : Job) : Type 0 where
    pub after : job.succeed_after ≡ n
    pub broken : job.fails ≡ fails

  -- A job that is not to fail, polled as often as it asked for.
  pub record IsEarned (job : Job) : Type 0 where
    pub tracked : IsTracked job
    pub sound : fails ≡ false
    pub reached : leb_ℤ n (pos job.attempts) ≡ true

  -- Its sign-off is asked for.
  pub record IsPending (job : Job) : Type 0 where
    pub earned : IsEarned job
    pub token : String
    pub stored : job.token ≡ some (str token)
    pub marked : job.signoff ≡ some (str "PENDING")

  -- A job that still runs after all its polls.
  pub record IsSpent (most : ℤ) (job : Job) : Type 0 where
    pub tracked : IsTracked job
    pub sound : fails ≡ false
    pub runs : job.status ≡ "RUNNING"
    pub short : leb_ℤ n (pos job.attempts) ≡ false
    pub spent : leb_ℤ most (pos job.attempts) ≡ true

abbrev pub IsInStatus : String → (Job → Type 0) → Job → Type 0
IsInStatus status F job = (job.status ≡ status) × F job

-- The answer of the person who signs off.
pub record IsAnswered (event : Event) : Type 0 where
  pub answer : Value
  pub given : get "signoff" event ≡ some answer

module _ {T : Type 0} (d : Dynamo T) (host : Host) (env : Environment) (k : String) (n : ℤ)
    (fails : Bool) where
  -- The data are those of a poll, which the item shows.
  pub record IsPolled (event : Event) (t : T) : Type 0 where
    pub job : Job
    pub named : (k == "") ≡ false
    pub tracked : IsTracked n fails job
    pub shows : Shows d k (polled job) t
    pub carried : event ≡ carrying (poll_answer host env k job)

  abbrev pub Stage : Event → State → Event → T → Type 0
  Stage input (running submit_job) event t = event ≡ input
  Stage input (running poll_job) event t = Carries event k × Showing d k (IsTracked n fails) t
  Stage input (running request_signoff) event t = Carries event k × Showing d k (IsEarned n fails) t
  Stage input (running finalize) event t =
      Carries event k × IsAnswered event × Showing d k (IsPending n fails) t
  Stage input wait_for_job event t = Carries event k × Showing d k (IsTracked n fails) t
  Stage input evaluate_job event t = IsPolled event t
  Stage input awaiting_callback event t = Carries event k × Showing d k (IsPending n fails) t
  Stage input completed event t =
      IsAnswered event × Showing d k (IsInStatus "COMPLETED" (IsPending n fails)) t
  Stage input job_timed_out event t = Showing d k (IsSpent n fails (max_polls host env)) t
  Stage input state event t = Unit {0}
