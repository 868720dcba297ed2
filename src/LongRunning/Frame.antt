-- ===== src/LongRunning/Frame.antt =====
-- A handler touches the item of its own job and no other.
use aws_serverless_patterns.Prelude.{
  String, Bool, Option, none, some, ◌≢◌, inl, inr, Bool-cases, ℕ, suc, if◌then◌else◌, false,
}
use aws_serverless_patterns.Prelude.Int.{ℤ, pos, ltb_ℤ}
use aws_serverless_patterns.Py.Value.{
  Value, str, obj, end, get, or_else, none_as_null, is_falsy, null, get_or, int, truthy, bool,
}
use aws_serverless_patterns.Py.Host.{Host, Environment, dict_get, int_of}
use aws_serverless_patterns.Py.Exec.{Result, ok, err, Raised, Exec, ◌>>=◌, lift, pure, ◌>>◌}
use aws_serverless_patterns.Py.Ends.{Result-cases}
use aws_serverless_patterns.Py.Keeps.{Keeps, keeps_rules, Keeps-or_raise}
use aws_serverless_patterns.Dynamo.{Dynamo, Item}
use aws_serverless_patterns.Dynamo.Frame.{HoldsItem, client_rules}
use aws_serverless_patterns.LongRunning.Errors.{JobError}
use aws_serverless_patterns.LongRunning.Handlers.{
  Event, poll_job, request_signoff, finalize, job_of, submit_job, ttl_seconds, job_object,
  backoff_seconds,
}
use aws_serverless_patterns.LongRunning.Store.{
  create, get_record, increment_attempt, update_progress, set_status, attach_token,
}
use mathlib.Core.Path.{subst}
use Prim.Native.String.{◌++◌ as concat}

-- The id of the event's job, null where there is none.
abbrev found_value : Result (Raised JobError) (Option Value) → Value
found_value (ok v) = none_as_null v
found_value (err e) = null

abbrev pub job_key : Event → Value
job_key event = found_value (dict_get (or_else (get "job" event) (obj end)) "job_id")

module _ {T : Type 0} (d : Dynamo T) (host : Host) (env : Environment) (j : String)
    (x : Option Item) where
  abbrev Holds : T → Type 0
  Holds = HoldsItem d j x

  create-Holds :
      (key : Value) (n : ℤ) (fails : Bool) (payload : Value) (ttl : Option ℤ)
      → key ≢ str j
      → Keeps Holds (create d host key n fails payload ttl)
  unfolding create
  create-Holds key n fails payload none ne = search client_rules depth 10
  create-Holds key n fails payload (some t) ne = search client_rules depth 10

  get_record-Holds : (key : Value) → Keeps Holds (get_record d host key)
  unfolding get_record
  get_record-Holds key = search client_rules

  increment_attempt-Holds : (key : Value) → key ≢ str j → Keeps Holds (increment_attempt d host key)
  unfolding increment_attempt
  increment_attempt-Holds key ne = search client_rules

  update_progress-Holds :
      (key : Value) (status : String) (progress : ℤ)
      → key ≢ str j
      → Keeps Holds (update_progress d host key status progress)
  unfolding update_progress
  update_progress-Holds key status progress ne = search client_rules

  set_status-Holds :
      (key : Value) (status : String) → key ≢ str j → Keeps Holds (set_status d host key status)
  unfolding set_status
  set_status-Holds key status ne = search client_rules

  attach_token-Holds :
      (key token : Value) → key ≢ str j → Keeps Holds (attach_token d host key token)
  unfolding attach_token
  attach_token-Holds key token ne = search client_rules

  ruleset store_rules = (
    keeps_rules, Keeps-or_raise, get_record-Holds, increment_attempt-Holds, update_progress-Holds,
    set_status-Holds, attach_token-Holds,
  )

  with_job-Holds :
      {A : Type 0} (event : Event) (f : Value → Exec JobError T A)
      → job_key event ≢ str j
      → ((key : Value) → key ≢ str j → Keeps Holds (f key))
      → Keeps Holds (job_of d host env event >>= f)
  unfolding job_of ◌>>=◌
  with_job-Holds event f ne body = record {
    at = λ w h.
        elim (Result-cases
          (dict_get {E = JobError} (or_else (get "job" event) (obj end)) "job_id")) [
            | inl (e, refused) ↦ rw refused h
            | inr (v, found) ↦ elim (Bool-cases (is_falsy v)) [
              | inl falsy ↦ rw (found, falsy) h
              | inr named ↦
                  rw (found, named)
                    ((body (none_as_null v) (subst (λ r. found_value r ≢ str j) found ne)).at w h)
            ]
          ];
  }

  pub poll_job-Holds :
      (event : Event) → job_key event ≢ str j → Keeps Holds (poll_job d host env event)
  unfolding poll_job
  poll_job-Holds event ne = with_job-Holds event _ ne λ key other. search store_rules depth 30

  pub request_signoff-Holds :
      (event : Event) → job_key event ≢ str j → Keeps Holds (request_signoff d host env event)
  unfolding request_signoff
  request_signoff-Holds event ne =
      with_job-Holds event _ ne λ key other. search store_rules depth 30

  pub finalize-Holds :
      (event : Event) → job_key event ≢ str j → Keeps Holds (finalize d host env event)
  unfolding finalize
  finalize-Holds event ne = with_job-Holds event _ ne λ key other. search store_rules depth 30

  -- What `submit_job` does once it has the id.
  submit_as :
      (event : Event) (key : Value)
      → key ≢ str j
      → Keeps Holds (do
        given ← lift (int_of host (get_or event "succeed_after_attempts" (int (pos 3))))
        create d host key
            (if ltb_ℤ given (pos 1) then pos 1 else given)
            (truthy (get_or event "fail_job" (bool false)))
            (or_else (get "payload" event) (obj end))
            (ttl_seconds host env)
        pure (job_object key "RUNNING" (pos 0) false (pos 0) (backoff_seconds host env (pos 0))))
  submit_as event key ne = search (keeps_rules, create-Holds) depth 12

  -- A submission that names no job makes up an id.
  pub submit_job-Holds :
      (event : Event)
      → none_as_null (get "job_id" event) ≢ str j
      → ((n : ℕ) → concat "job-" (host.uuid n) ≢ j)
      → Keeps Holds (submit_job d host env event)
  unfolding submit_job ◌>>=◌
  submit_job-Holds event ne fresh = record {
    at = λ w h. elim (Bool-cases (is_falsy (get "job_id" event))) [
      | inl falsy ↦ rw falsy (
          (submit_as event (str (concat "job-" (host.uuid w.ids))) (λ e. fresh w.ids cc)).at
            (record w { ids = suc w.ids }) h)
      | inr named ↦ rw named ((submit_as event (none_as_null (get "job_id" event)) ne).at w h)
    ];
  }
