-- ===== src/LongRunning/Machine/Advance.antt =====
-- From state to state: a task that is called again, and one that returned.
use aws_serverless_patterns.Prelude.{String, Bool, true, false, ◌≡◌, ◌∙◌, refl, sym, ap, ◌==◌}
use aws_serverless_patterns.Prelude.Int.{ℤ}
use aws_serverless_patterns.Py.Value.{Value, Fields, get, get-set, get_or, truthy, bool, float_free}
use aws_serverless_patterns.Py.Host.{Host, Environment, dict_get}
use aws_serverless_patterns.Py.Exec.{World, Exec, ok}
use aws_serverless_patterns.Py.Ends.{Ends}
use aws_serverless_patterns.Py.Triple.{ok-injective}
use aws_serverless_patterns.Dynamo.{Dynamo}
use aws_serverless_patterns.LongRunning.Errors.{JobError}
use aws_serverless_patterns.LongRunning.Handlers.{Event, job_object, backoff_seconds}
use aws_serverless_patterns.LongRunning.Loop.{carrying}
use aws_serverless_patterns.LongRunning.Polling.{
  Carries, Submits, at_least_one, submit_job-Ends, poll_job-Ends, request_signoff-Ends,
}
use aws_serverless_patterns.LongRunning.Machine.{
  Task, submit_job, poll_job, request_signoff, finalize, State, running, next_of, payload_of,
  with_result, invoke,
}
use aws_serverless_patterns.LongRunning.Machine.Stage.{
  Showing, Showing-map, IsTracked, IsEarned, IsPending, Stage, IsInStatus,
}
use aws_serverless_patterns.LongRunning.Machine.Calls.{payload-Carries, finalize-Shows}
use aws_serverless_patterns.LongRunning.Handlers
use mathlib.Core.Path.{subst⁻¹}

returned_is :
    {T A S : Type 0} {R : S → T → Type 0} {m : Exec JobError T A} {w : World T} {a b : A} {s : S}
    → Ends R m w a s
    → (m w).0 ≡ ok b
    → b ≡ a
returned_is ends e = ok-injective (sym e ∙ ends.returned)

module _ {T : Type 0} (d : Dynamo T) (host : Host) (env : Environment) {k : String} {m : ℤ}
    {payload : Value} (input : Event) (asks : Submits host input k m payload)
    (plain : float_free payload ≡ true) where
  abbrev pub fails : Bool
  fails = truthy (get_or input "fail_job" (bool false))

  abbrev pub Stands : State → Event → T → Type 0
  Stands = Stage d host env k (at_least_one m) fails input

  submitted_lem :
      (w : World T) (r : Fields)
      → (Handlers.submit_job d host env input w).0 ≡ ok r
      → Carries (carrying r) k
        × Showing d k
            (IsTracked (at_least_one m) fails)
            (Handlers.submit_job d host env input w).1.cloud
  unfolding job_object get dict_get
  submitted_lem w r e =
      let ends = submit_job-Ends d host env input asks w plain in
      (
        subst⁻¹ (λ x. Carries (carrying x) k) (returned_is ends e)
            (record { named = asks.named; read = refl }),
        record { job = _; shows = ends.after; fact = record { after = refl; broken = refl } },
      )

  module _ (token : String) (real : (token == "") ≡ false) (event : Event) (w : World T) where
    asked :
        Carries event k
        → Showing d k (IsEarned (at_least_one m) fails) w.cloud
        → Showing d k
            (IsPending (at_least_one m) fails)
            (invoke d host env request_signoff (payload_of request_signoff token event) w).1.cloud
    unfolding invoke payload_of get
    asked c h = record {
      job = _;
      shows =
          (request_signoff-Ends d host env _ (payload-Carries token event c) w h.shows token refl
            real).after;
      fact = record {
        earned = record {
          tracked = record { after = h.fact.tracked.after; broken = h.fact.tracked.broken };
          sound = h.fact.sound;
          reached = h.fact.reached;
        };
        token = token;
        stored = refl;
        marked = refl;
      };
    }

    finished :
        Carries event k
        → Showing d k (IsPending (at_least_one m) fails) w.cloud
        → Showing d k
            (IsInStatus "COMPLETED" (IsPending (at_least_one m) fails))
            (invoke d host env finalize (payload_of finalize token event) w).1.cloud
    unfolding invoke payload_of
    finished c h = record {
      job = _;
      shows = finalize-Shows d host env event c w h.shows;
      fact = (
        refl,
        record {
          earned = record {
            tracked = record {
              after = h.fact.earned.tracked.after;
              broken = h.fact.earned.tracked.broken;
            };
            sound = h.fact.earned.sound;
            reached = h.fact.earned.reached;
          };
          token = h.fact.token;
          stored = h.fact.stored;
          marked = h.fact.marked;
        },
      );
    }

    pub repeat_lem :
        (task : Task)
        → Stands (running task) event w.cloud
        → Stands
            (running task)
            event
            (invoke d host env task (payload_of task token event) w).1.cloud
    unfolding invoke payload_of
    repeat_lem submit_job h = h
    repeat_lem poll_job h = (
      h.0,
      record {
        job = _;
        shows = (poll_job-Ends d host env event h.0 w h.1.shows).after;
        fact = record { after = h.1.fact.after; broken = h.1.fact.broken };
      },
    )
    repeat_lem request_signoff h = (h.0, Showing-map (λ job f. f.earned) (asked h.0 h.1))
    repeat_lem finalize h = (h.0, h.1, Showing-map (λ job f. f.1) (finished h.0 h.2))

    pub advance :
        (task : Task) (r : Fields)
        → Stands (running task) event w.cloud
        → (invoke d host env task (payload_of task token event) w).0 ≡ ok r
        → Stands
            (next_of task)
            (with_result task r event)
            (invoke d host env task (payload_of task token event) w).1.cloud
    unfolding invoke payload_of with_result
    advance submit_job r h e =
        subst⁻¹
          (λ x.
            (Handlers.submit_job d host env x w).0 ≡ ok r
            → Carries (carrying r) k
              × Showing d k (IsTracked (at_least_one m) fails)
                  (Handlers.submit_job d host env x w).1.cloud)
          h (submitted_lem w r) e
    advance poll_job r h e =
        let ends = poll_job-Ends d host env event h.0 w h.1.shows in
        record {
          job = h.1.job;
          named = h.0.named;
          tracked = h.1.fact;
          shows = ends.after;
          carried = ap carrying (returned_is ends e);
        }
    advance request_signoff r h e = (h.0, asked h.0 h.1)
    advance finalize r h e =
        (record { answer = h.1.answer; given = rw get-set h.1.given }, finished h.0 h.2)
