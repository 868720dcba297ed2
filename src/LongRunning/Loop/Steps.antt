-- ===== src/LongRunning/Loop/Steps.antt =====
-- One poll of the loop: where it goes on, and where it leaves.
use aws_serverless_patterns.Prelude.{ℕ, suc, ◌<◌, String, true, false, ◌≡◌, refl, arith, ◌==◌}
use aws_serverless_patterns.Prelude.Int.{ℤ, pos, max_ℤ, leb_ℤ}
use aws_serverless_patterns.Py.Value.{get, Fields}
use aws_serverless_patterns.Py.Host.{Host, Environment, dict_get}
use aws_serverless_patterns.Py.Exec.{World, Exec, pure}
use aws_serverless_patterns.Py.Ends.{Ends, Ends-bind, Ends-pure}
use aws_serverless_patterns.Dynamo.{Dynamo}
use aws_serverless_patterns.LongRunning.View.{Job, Shows}
use aws_serverless_patterns.LongRunning.Handlers.{Event, job_object}
use aws_serverless_patterns.LongRunning.Polling.{
  Carries, polled, poll_answer, status_after, max_polls, poll_job-Ends,
}
use aws_serverless_patterns.LongRunning.Loop.{
  poll_loop, evaluate_job, to_job_failed, to_job_timed_out, Route, to_wait_for_job, carrying,
  follow, to_request_signoff,
}
use aws_serverless_patterns.LongRunning.Errors.{JobError}

-- The number of the attempt at which the polls are used up, seen from `attempts`: the configured
-- number, or the next one where that is passed.
abbrev pub budget : Host → Environment → ℕ → ℤ
budget host env attempts = max_ℤ (pos (suc attempts)) (max_polls host env)

module _ (host : Host) (env : Environment) (k : String) (job : Job) where
  pub reaches :
      job.fails ≡ false
      → job.succeed_after ≡ pos (suc job.attempts)
      → status_after job ≡ "SUCCEEDED"
  reaches sound limit = rw (sound, limit) (ground arith)

  pub runs :
      (s : ℕ)
      → job.fails ≡ false
      → job.succeed_after ≡ pos s
      → suc job.attempts < s
      → status_after job ≡ "RUNNING"
  runs s sound limit below = rw (sound, limit) (ground arith)

  pub breaks : job.fails ≡ true → status_after job ≡ "FAILED"
  breaks broken = rw broken

  pub route-succeeded :
      status_after job ≡ "SUCCEEDED"
      → evaluate_job (poll_answer host env k job) ≡ to_request_signoff
  unfolding evaluate_job job_object get
  route-succeeded h = rw h

  pub route-failed :
      status_after job ≡ "FAILED" → evaluate_job (poll_answer host env k job) ≡ to_job_failed
  unfolding evaluate_job job_object get
  route-failed h = rw h

  pub route-exhausted :
      status_after job ≡ "RUNNING"
      → leb_ℤ (max_polls host env) (pos (suc job.attempts)) ≡ true
      → evaluate_job (poll_answer host env k job) ≡ to_job_timed_out
  unfolding evaluate_job job_object get
  route-exhausted h spent = rw (h, spent)

  pub route-waits :
      status_after job ≡ "RUNNING"
      → leb_ℤ (max_polls host env) (pos (suc job.attempts)) ≡ false
      → evaluate_job (poll_answer host env k job) ≡ to_wait_for_job
  unfolding evaluate_job job_object get
  route-waits h left = rw (h, left)

pub answer-Carries :
    (host : Host) (env : Environment) (k : String) (job : Job)
    → (k == "") ≡ false
    → Carries (carrying (poll_answer host env k job)) k
unfolding job_object get dict_get
answer-Carries host env k job named = record { named = named; read = refl }

module _ {T : Type 0} (d : Dynamo T) (host : Host) (env : Environment) {k : String} (event : Event)
    (c : Carries event k) (w : World T) {job : Job} (h : Shows d k job w.cloud) where
  -- A poll whose answer leaves the loop ends it.
  pub leaves :
      (polls : ℕ) (r : Route)
      → evaluate_job (poll_answer host env k job) ≡ r
      → ((rest : Exec JobError T (Route × Fields))
          → follow (poll_answer host env k job) r rest ≡ pure (r, poll_answer host env k job))
      → Ends
          (Shows d k)
          (poll_loop d host env (suc polls) event)
          w
          (r, poll_answer host env k job)
          (polled job)
  unfolding poll_loop
  leaves polls r route out =
      Ends-bind _ _ w (poll_job-Ends d host env event c w h)
        λ h'. rw (route, out) (Ends-pure _ _ h')

  -- A poll whose answer does not leave it is followed by the others.
  pub goes_on :
      (polls : ℕ) {a : Route × Fields} {job' : Job}
      → evaluate_job (poll_answer host env k job) ≡ to_wait_for_job
      → ((w' : World T)
          → Shows d k (polled job) w'.cloud
          → Ends
              (Shows d k)
              (poll_loop d host env polls (carrying (poll_answer host env k job)))
              w'
              a
              job')
      → Ends (Shows d k) (poll_loop d host env (suc polls) event) w a job'
  unfolding poll_loop
  goes_on polls route rest =
      Ends-bind _ _ w (poll_job-Ends d host env event c w h) λ h'. rw route (rest _ h')
