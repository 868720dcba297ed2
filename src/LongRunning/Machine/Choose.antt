-- ===== src/LongRunning/Machine/Choose.antt =====
-- From state to state: the choice after a poll.
use aws_serverless_patterns.Prelude.{
  String, true, false, some, ◌≡◌, ◌∙◌, sym, ap, ◌==◌, inl, inr, Bool-cases, suc, Option,
}
use aws_serverless_patterns.Prelude.Int.{ℤ, pos, leb_ℤ}
use aws_serverless_patterns.Py.Value.{Value, obj, Fields, end, get, float_free}
use aws_serverless_patterns.Py.Host.{Host, Environment}
use aws_serverless_patterns.Dynamo.{Dynamo}
use aws_serverless_patterns.LongRunning.View.{Job, Shows}
use aws_serverless_patterns.LongRunning.Handlers.{Event}
use aws_serverless_patterns.LongRunning.Loop.{carrying, evaluate_job}
use aws_serverless_patterns.LongRunning.Loop.Steps.{
  route-succeeded, route-failed, route-exhausted, route-waits, answer-Carries,
}
use aws_serverless_patterns.LongRunning.Polling.{
  Submits, at_least_one, max_polls, poll_answer, polled,
}
use aws_serverless_patterns.LongRunning.Machine.{chosen}
use aws_serverless_patterns.LongRunning.Machine.Stage.{IsTracked, IsPolled}
use mathlib.Core.Path.{subst, subst⁻¹}
use aws_serverless_patterns.LongRunning.Machine.Advance.{Stands, fails}

abbrev fields_of : Option Value → Fields
fields_of (some (obj fs)) = fs
fields_of v = end

module _ {T : Type 0} (d : Dynamo T) (host : Host) (env : Environment) {k : String} {m : ℤ}
    {payload : Value} (input : Event) (asks : Submits host input k m payload)
    (plain : float_free payload ≡ true) where
  still :
      (job : Job)
      → IsTracked (at_least_one m) (fails d host env input asks plain) job
      → IsTracked (at_least_one m) (fails d host env input asks plain) (polled job)
  still job tracked = record { after = tracked.after; broken = tracked.broken }

  module _ {t : T} where
    -- A poll that succeeded, failed, used up the polls, or did neither.
    route_lem :
        (job : Job)
        → (k == "") ≡ false
        → IsTracked (at_least_one m) (fails d host env input asks plain) job
        → Shows d k (polled job) t
        → Stands d host env input asks plain
            (chosen (evaluate_job (poll_answer host env k job)))
            (carrying (poll_answer host env k job))
            t
    route_lem job named tracked shows = elim (Bool-cases job.fails) [
      | inl broken ↦ rw (route-failed host env k job (rw broken)) tt
      | inr sound ↦ elim (Bool-cases (leb_ℤ job.succeed_after (pos (suc job.attempts)))) [
        | inl reached ↦ rw (route-succeeded host env k job (rw (sound, reached))) (
          answer-Carries host env k job named,
          record {
            job = polled job;
            shows = shows;
            fact = record {
              tracked = still job tracked;
              sound = sym tracked.broken ∙ sound;
              reached = rw (sym tracked.after) reached;
            };
          },
        )
        | inr short ↦ elim (Bool-cases (leb_ℤ (max_polls host env) (pos (suc job.attempts)))) [
          | inl spent ↦ rw (route-exhausted host env k job (rw (sound, short)) spent) (record {
            job = polled job;
            shows = shows;
            fact = record {
              tracked = still job tracked;
              sound = sym tracked.broken ∙ sound;
              runs = rw (sound, short);
              short = rw (sym tracked.after) short;
              spent = spent;
            };
          })
          | inr left ↦ rw (route-waits host env k job (rw (sound, short)) left) (
            answer-Carries host env k job named,
            record { job = polled job; shows = shows; fact = still job tracked },
          )
        ]
      ]
    ]

    pub choose :
        {event : Event} (job : Fields)
        → IsPolled d host env k (at_least_one m) (fails d host env input asks plain) event t
        → get "job" event ≡ some (obj job)
        → Stands d host env input asks plain (chosen (evaluate_job job)) event t
    unfolding get
    choose {event} job h found =
        subst⁻¹
          (λ x.
            (get "job" x ≡ some (obj job))
            → Stands d host env input asks plain (chosen (evaluate_job job)) x t)
          h.carried
          (λ e.
            subst
              (λ y.
                Stands d host env input asks plain (chosen (evaluate_job y))
                  (carrying (poll_answer host env k h.job)) t)
              (ap fields_of e) (route_lem h.job h.named h.tracked h.shows))
          found
