-- ===== src/LongRunning/Machine/Calls.antt =====
-- The item of the job after a call of a task, however it ended.
use aws_serverless_patterns.Prelude.{String, Option, none, some, ◌≡◌, refl, inl, inr}
use aws_serverless_patterns.Py.Value.{Value, obj, end, get, or_else, none_as_null}
use aws_serverless_patterns.Py.Host.{Host, Environment, dict_get}
use aws_serverless_patterns.Py.Exec.{World}
use aws_serverless_patterns.Py.Ends.{Result-cases, Fails-bind, Fails-first, Fails-lift}
use aws_serverless_patterns.Dynamo.{Dynamo}
use aws_serverless_patterns.LongRunning.Errors.{JobError}
use aws_serverless_patterns.LongRunning.View.{Job, Shows}
use aws_serverless_patterns.LongRunning.Store.Refines.{set_status-Ends}
use aws_serverless_patterns.LongRunning.Handlers.{Event, finalize}
use aws_serverless_patterns.LongRunning.Polling.{Carries, job_of-Ends, finalize-Ends}
use aws_serverless_patterns.LongRunning.Machine.{request_signoff, payload_of}

pub Carries-keep :
    {event event' : Event} {k : String}
    → get "job" event' ≡ get "job" event
    → Carries event k
    → Carries event' k
Carries-keep same c = record { named = c.named; read = rw same c.read }

-- A missing job is `null` in the payload, and read as no job alike.
handed : (v : Option Value) → or_else (some (none_as_null v)) (obj end) ≡ or_else v (obj end)
handed none = refl
handed (some v) = refl

pub payload-Carries :
    (token : String) (event : Event) {k : String}
    → Carries event k
    → Carries (payload_of request_signoff token event) k
unfolding payload_of get
payload-Carries token event c = record {
  named = c.named;
  read = rw (handed (get "job" event)) c.read;
}

module _ {T : Type 0} (d : Dynamo T) (host : Host) (env : Environment) {k : String} (event : Event)
    (c : Carries event k) (w : World T) {job : Job} (h : Shows d k job w.cloud) where
  -- The status is set before the answer is read, which may raise.
  pub finalize-Shows :
      Shows d k (record job { status = "COMPLETED" }) (finalize d host env event w).1.cloud
  unfolding finalize
  finalize-Shows =
      elim (Result-cases
        (dict_get {E = JobError} (or_else (get "signoff" event) (obj end)) "approved_by")) [
          | inl (e, refused) ↦
              (Fails-bind _ _ w (job_of-Ends d host env event c w h) λ h1.
                Fails-bind _ _ _ (set_status-Ends d host k c.named _ _ h1)
                  λ h2. Fails-first _ _ _ (Fails-lift _ _ refused h2)).after
          | inr (by, given) ↦ (finalize-Ends d host env event c w h by given).after
        ]
