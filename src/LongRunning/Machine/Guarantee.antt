-- ===== src/LongRunning/Machine/Guarantee.antt =====
-- What the state machine guarantees of the job where an execution ends.
use aws_serverless_patterns.Prelude.{String, Bool, true, ◌≡◌, refl, false}
use aws_serverless_patterns.Prelude.Int.{ℤ}
use aws_serverless_patterns.Py.Value.{Value, get-set, get_or, truthy, bool, float_free}
use aws_serverless_patterns.Py.Host.{Host, Environment}
use aws_serverless_patterns.Py.Exec.{World}
use aws_serverless_patterns.Dynamo.{Dynamo}
use aws_serverless_patterns.LongRunning.Handlers.{Event}
use aws_serverless_patterns.LongRunning.Polling.{Submits, at_least_one, max_polls}
use aws_serverless_patterns.LongRunning.Machine.{
  Task, submit_job, poll_job, request_signoff, finalize, State, completed, job_timed_out, caught_by,
  payload_of, invoke, Execution, Step, Reach,
}
use aws_serverless_patterns.LongRunning.Machine.Stage.{
  Showing, IsPending, IsInStatus, IsSpent, IsAnswered,
}
use aws_serverless_patterns.LongRunning.Machine.Calls.{Carries-keep}
use aws_serverless_patterns.LongRunning.Machine.Advance.{Stands, fails, repeat_lem, advance}
use aws_serverless_patterns.LongRunning.Machine.Choose.{choose}
use mathlib.Core.Path.{subst, subst⁻¹}
use aws_serverless_patterns.LongRunning.Machine.Elsewhere.{elsewhere_lem, job_frame}

-- A job that may complete: signed off, in status COMPLETED, not one to fail, and polled as often as
-- it asked for.
abbrev pub SignedOff : {T : Type 0} → Dynamo T → String → ℤ → Bool → Event → T → Type 0
SignedOff d k n fails event t =
    IsAnswered event × Showing d k (IsInStatus "COMPLETED" (IsPending n fails)) t

-- A job whose polls are used up: it still runs, and asked for more than it got.
abbrev pub OutOfPolls : {T : Type 0} → Dynamo T → String → ℤ → Bool → ℤ → T → Type 0
OutOfPolls d k n fails most t = Showing d k (IsSpent n fails most) t

module _ {T : Type 0} (d : Dynamo T) (host : Host) (env : Environment) {k : String} {m : ℤ}
    {payload : Value} (input : Event) (asks : Submits host input k m payload)
    (plain : float_free payload ≡ true) where
  abbrev Holds : Execution T → Type 0
  Holds e = Stands d host env input asks plain e.state e.event e.world.cloud

  in_state :
      {state : State} (e : Execution T)
      → e.state ≡ state
      → Holds e
      → Stands d host env input asks plain state e.event e.world.cloud
  in_state e s h = subst (λ x. Stands d host env input asks plain x e.event e.world.cloud) s h

  given_up :
      (task : Task) (event : Event) (t : T)
      → Stands d host env input asks plain (caught_by task) event t
  given_up submit_job event t = tt
  given_up poll_job event t = tt
  given_up request_signoff event t = tt
  given_up finalize event t = tt

  Step-Holds : {e e' : Execution T} → Step d host env k e e' → Holds e → Holds e'
  Step-Holds {e} (Step.succeed task token r real s returned is) h = subst⁻¹ Holds is (
      advance d host env input asks plain token real e.event e.world task r (in_state e s h)
        returned)
  Step-Holds {e} (Step.repeat task token real s is) h = subst⁻¹ Holds is (
      subst⁻¹
        (λ x.
          Stands d host env input asks plain x e.event
            (invoke d host env task (payload_of task token e.event) e.world).1.cloud)
        s (repeat_lem d host env input asks plain token real e.event e.world task (in_state e s h)))
  Step-Holds {e} (Step.give_up task token fault real s is) h = subst⁻¹ Holds is (given_up task _ _)
  Step-Holds {e} (Step.wake s is) h = subst⁻¹ Holds is (in_state e s h)
  Step-Holds {e} (Step.evaluate job s found is) h =
      subst⁻¹ Holds is (choose d host env input asks plain job (in_state e s h) found)
  Step-Holds {e} (Step.sign_off answer s is) h =
      let before = in_state e s h in
      subst⁻¹ Holds is (
        Carries-keep (rw get-set refl) before.0,
        record { answer = answer; given = rw get-set refl },
        before.1,
      )
  Step-Holds {e} (Step.refuse fault s is) h = subst⁻¹ Holds is tt
  Step-Holds {e} (Step.time_out fault s is) h = subst⁻¹ Holds is tt
  Step-Holds {e} (Step.elsewhere task event other is) h = subst⁻¹ Holds is (
      elsewhere_lem d k (job_frame d host env k task event e.world other) host env (at_least_one m)
        (fails d host env input asks plain) input e.event e.state h)
  Step-Holds {e} (Step.expire is) h = subst⁻¹ Holds is tt

  Reach-Holds : {w : World T} {e : Execution T} → Reach d host env k input w e → Holds e
  Reach-Holds Reach.begin = refl
  Reach-Holds (Reach.later path step) = Step-Holds step (Reach-Holds path)

  module _ {w : World T} (e : Execution T) (path : Reach d host env k input w e) where
    -- In every execution of the state machine, from an input that names a job and how often it is
    -- to be polled, with a payload without floats, and from any table, whose tasks may be repeated
    -- or given up after any call, while other executions for other jobs run between its steps:
    -- where it has completed, a person has answered the sign-off, and the item of the job shows
    -- the status COMPLETED, the task token with the sign-off PENDING, what the input asked for,
    -- which is not to fail, and at least as many attempts as that.
    pub completed-SignedOff :
        e.state ≡ completed
        → SignedOff d k
            (at_least_one m)
            (truthy (get_or input "fail_job" (bool false)))
            e.event
            e.world.cloud
    completed-SignedOff s = in_state e s (Reach-Holds path)

    -- In every execution of the state machine, from an input that names a job and how often it is
    -- to be polled, with a payload without floats, and from any table, whose tasks may be repeated
    -- or given up after any call, while other executions for other jobs run between its steps:
    -- where it stands in JobTimedOut, the item of the job shows the status RUNNING and what the
    -- input asked for, which is not to fail, at least as many attempts as the configured number of
    -- polls, and fewer than the input asked for.
    pub job_timed_out-OutOfPolls :
        e.state ≡ job_timed_out
        → OutOfPolls d k
            (at_least_one m)
            (truthy (get_or input "fail_job" (bool false)))
            (max_polls host env)
            e.world.cloud
    job_timed_out-OutOfPolls s = in_state e s (Reach-Holds path)
