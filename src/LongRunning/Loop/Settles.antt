-- ===== src/LongRunning/Loop/Settles.antt =====
-- How the loop ends, and after how many polls.
use aws_serverless_patterns.Prelude.{ℕ, zero, suc, ◌+◌, ◌<◌, String, true, false, ◌≡◌, refl, arith}
use aws_serverless_patterns.Prelude.Int.{pos, ◌≤ℤ◌, leb_ℤ}
use aws_serverless_patterns.Py.Value.{str}
use aws_serverless_patterns.Py.Host.{Host, Environment}
use aws_serverless_patterns.Py.Exec.{World}
use aws_serverless_patterns.Py.Ends.{Ends}
use aws_serverless_patterns.Dynamo.{Dynamo}
use aws_serverless_patterns.LongRunning.View.{Job, Shows}
use aws_serverless_patterns.LongRunning.Handlers.{Event, job_object, poll_progress, backoff_seconds}
use aws_serverless_patterns.LongRunning.Polling.{Carries, polled, poll_answer, max_polls}
use aws_serverless_patterns.LongRunning.Loop.{
  poll_loop, to_job_failed, to_job_timed_out, carrying, to_request_signoff,
}
use native.Mathlib.Nat.{add-zero}
use aws_serverless_patterns.LongRunning.Loop.Steps.{
  answer-Carries, leaves, budget, runs, route-failed, reaches, route-exhausted, route-succeeded,
  breaks, goes_on, route-waits,
}

-- The job after its last poll.
abbrev pub succeeded : ℕ → Job → Job
succeeded s job = record job { status = "SUCCEEDED"; attempts = s; progress = pos 100 }

abbrev pub running_at : ℕ → Job → Job
running_at n job = record job {
  status = "RUNNING";
  attempts = n;
  progress = poll_progress "RUNNING" (pos n) job.succeed_after;
}

module _ {T : Type 0} (d : Dynamo T) (host : Host) (env : Environment) {k : String} where
  -- A sound job that succeeds within the budget, after m polls that wait and one more, leaves the
  -- loop for the sign-off with more than m polls allowed: it is SUCCEEDED at 100 percent, its
  -- attempts are the number that it succeeds after, and the answer says so.
  pub poll_loop_succeeds :
      (m polls : ℕ) (event : Event)
      → Carries event k
      → (w : World T) (job : Job) → Shows d k job w.cloud
      → job.fails ≡ false
      → job.succeed_after ≡ pos (suc (job.attempts + m))
      → pos (suc (job.attempts + m)) ≤ℤ budget host env job.attempts
      → m < polls
      → Ends
          (Shows d k)
          (poll_loop d host env polls event)
          w
          (
            to_request_signoff,
            job_object
                (str k)
                "SUCCEEDED"
                (pos (suc (job.attempts + m)))
                false
                (pos 100)
                (backoff_seconds host env (pos (suc (job.attempts + m)))),
          )
          (succeeded (suc (job.attempts + m)) job)
  unfolding poll_progress
  poll_loop_succeeds zero (suc polls) event c w job h sound limit within enough =
      let now : job.succeed_after ≡ pos (suc job.attempts) = rw add-zero at limit in
      let last = reaches host env k job sound now in
      let ended =
        leaves d host env event c w h polls to_request_signoff (route-succeeded host env k job last)
          (λ rest. refl) in
      rw add-zero (rw last at ended)
  poll_loop_succeeds (suc m) (suc polls) event c w job h sound limit within enough =
      let goes = runs host env k job _ sound limit (omega arith) in
      let same : suc job.attempts + m ≡ job.attempts + suc m = omega arith in
      goes_on d host env event c w h polls (route-waits host env k job goes (ground arith)) λ w' h'.
        let rest =
          poll_loop_succeeds m polls (carrying (poll_answer host env k job))
            (answer-Carries host env k job c.named) w' (polled job) h' sound (rw same limit)
            (rw same (ground arith)) (omega arith) in
        rw same at rest
  poll_loop_succeeds m zero event c w job h sound limit within enough = absurd (omega arith)

  -- A sound job that does not succeed within the budget, which is used up after m polls that wait
  -- and one more, leaves the loop as timed out with more than m polls allowed: it is still
  -- RUNNING, and its attempts are the budget.
  pub poll_loop_times_out :
      (m polls s : ℕ) (event : Event)
      → Carries event k
      → (w : World T) (job : Job) → Shows d k job w.cloud
      → job.fails ≡ false
      → job.succeed_after ≡ pos s
      → suc (job.attempts + m) < s
      → budget host env job.attempts ≡ pos (suc (job.attempts + m))
      → m < polls
      → Ends
          (Shows d k)
          (poll_loop d host env polls event)
          w
          (
            to_job_timed_out,
            job_object
                (str k)
                "RUNNING"
                (pos (suc (job.attempts + m)))
                true
                (poll_progress "RUNNING" (pos (suc (job.attempts + m))) job.succeed_after)
                (backoff_seconds host env (pos (suc (job.attempts + m)))),
          )
          (running_at (suc (job.attempts + m)) job)
  poll_loop_times_out zero (suc polls) s event c w job h sound limit above spent enough =
      let now : suc job.attempts < s = rw add-zero at above in
      let goes = runs host env k job s sound limit now in
      let used : leb_ℤ (max_polls host env) (pos (suc job.attempts)) ≡ true = ground arith in
      let ended =
        leaves d host env event c w h polls to_job_timed_out
          (route-exhausted host env k job goes used) (λ rest. refl) in
      rw add-zero (rw (goes, used) at ended)
  poll_loop_times_out (suc m) (suc polls) s event c w job h sound limit above spent enough =
      let goes = runs host env k job s sound limit (omega arith) in
      let same : suc job.attempts + m ≡ job.attempts + suc m = omega arith in
      goes_on d host env event c w h polls (route-waits host env k job goes (ground arith)) λ w' h'.
        let rest =
          poll_loop_times_out m polls s (carrying (poll_answer host env k job))
            (answer-Carries host env k job c.named) w' (polled job) h' sound limit (rw same above)
            (rw same (ground arith)) (omega arith) in
        rw same at rest
  poll_loop_times_out m zero s event c w job h sound limit above spent enough = absurd (omega arith)

  -- A job that is to fail leaves the loop as failed at the first poll, which counts one attempt.
  pub poll_loop_fails :
      (polls : ℕ) (event : Event)
      → Carries event k
      → (w : World T) (job : Job) → Shows d k job w.cloud
      → job.fails ≡ true
      → Ends
          (Shows d k)
          (poll_loop d host env (suc polls) event)
          w
          (to_job_failed, poll_answer host env k job)
          (polled job)
  poll_loop_fails polls event c w job h broken =
      leaves d host env event c w h polls to_job_failed
        (route-failed host env k job (breaks host env k job broken)) (λ rest. refl)
