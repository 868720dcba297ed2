-- ===== src/RetryBackoff/Handler/Report.antt =====
-- patterns/retry-backoff/src/handler.py: `handle` on a whole batch: the records that it reports, and
-- the calls of `change_message_visibility` that it makes.
use aws_serverless_patterns.Prelude.{
  [], ◌∷◌, none, some, if◌then◌else◌, refl, inl, inr, String, List, ◌++◌, ◌≡◌, Option, Bool, true,
  false, All, Option-cases, Bool-cases, ◌∙◌, ℕ, ◌≤◌,
}
use aws_serverless_patterns.Sqs.{Work, Message, message_ids}
use aws_serverless_patterns.Py.Host.{Host, Environment, int_of, int_env}
use aws_serverless_patterns.RetryBackoff.Handler.{
  Calls, Visibility, parse_body, handle_from, count_text, backoff_record, handle,
}
use aws_serverless_patterns.Prelude.Int.{ℤ, pos, ◌≤ℤ◌, max_ℤ}
use aws_serverless_patterns.RetryBackoff.Curve.{Jitter, compute_backoff_seconds}
use aws_serverless_patterns.RetryBackoff.Curve.Bounds.{
  unguarded, compute_backoff_seconds_bounds, compute_backoff_seconds_curve,
}
use aws_serverless_patterns.Py.Value.{Value, str}
use aws_serverless_patterns.Py.Exec.{◌>>=◌, ok, World}
use mathlib.Core.List.{append-nil, append_assoc}

-- The records that do not parse or whose work raises.
abbrev pub fails : Work → Message → Option Value → Bool
fails work m none = true
fails work m (some body) = work.raises body m

abbrev pub failed : Work → List Message → List Message
failed work [] = []
failed work (m ∷ ms) =
    let rest = failed work ms in if fails work m (parse_body work m) then m ∷ rest else rest

-- The records that parse and whose work raises.
abbrev pub raised : Work → Message → Option Value → Bool
raised work m none = false
raised work m (some body) = work.raises body m

abbrev pub retried : Work → List Message → List Message
retried work [] = []
retried work (m ∷ ms) =
    let rest = retried work ms in if raised work m (parse_body work m) then m ∷ rest else rest

-- The receive count of the record is an integer.
abbrev pub IsCounted : Host → Message → Type 0
IsCounted host m = (n : ℤ) × (int_of {E = ⊥} host (str (count_text m)) ≡ ok n)

module _ (host : Host) (env : Environment) where
  abbrev pub base : ℤ
  base = int_env host env "BACKOFF_BASE_SECONDS" (pos 5)

  abbrev pub cap : ℤ
  cap = int_env host env "BACKOFF_MAX_SECONDS" (pos 900)

  -- The call hides the record on its queue for at most 12 hours, at most the cap, and at most the
  -- exponential curve of the record's own receive count.
  pub record HeldBack (url : String) (m : Message) (call : Visibility) : Type 0 where
    pub on_queue : call.queue_url ≡ url
    pub for_record : call.receipt_handle ≡ m.receipt_handle
    pub within_limit : call.timeout ≤ 43200
    pub within_cap : pos call.timeout ≤ℤ max_ℤ (pos 0) cap
    pub receive_count : ℤ
    pub counted : int_of {E = ⊥} host (str (count_text m)) ≡ ok receive_count
    pub within_curve : pos call.timeout ≤ℤ unguarded receive_count base cap

  -- One call for each record, in their order.
  abbrev pub EachHeldBack : String → List Message → Calls → Type 0
  EachHeldBack url [] [] = Unit
  EachHeldBack url [] (call ∷ calls) = ⊥
  EachHeldBack url (m ∷ ms) [] = ⊥
  EachHeldBack url (m ∷ ms) (call ∷ calls) = HeldBack url m call × EachHeldBack url ms calls

  -- What a batch adds to the calls.
  pub record Adds (url : String) (ms : List Message) (before after : Calls) : Type 0 where
    pub calls : Calls
    pub added : after ≡ before ++ calls
    pub each : EachHeldBack url ms calls

module _ (host : Host) (env : Environment) (rng : Jitter) (work : Work) (url : String) where
  held_back :
      (m : Message) (n : ℤ) (draws : ℕ)
      → int_of {E = ⊥} host (str (count_text m)) ≡ ok n
      → HeldBack host env url m (record {
        queue_url = url;
        receipt_handle = m.receipt_handle;
        timeout = compute_backoff_seconds rng draws n (base host env) (cap host env);
      })
  held_back m n draws counted =
      let (limit, capped) =
        compute_backoff_seconds_bounds rng draws n (base host env) (cap host env) in
      record {
        on_queue = refl;
        for_record = refl;
        within_limit = limit;
        within_cap = capped;
        receive_count = n;
        counted = counted;
        within_curve = compute_backoff_seconds_curve rng draws n (base host env) (cap host env);
      }

  one_more :
      {m : Message} {ms : List Message} {call : Visibility} {before after : Calls}
      → HeldBack host env url m call
      → Adds host env url ms (before ++ call ∷ []) after
      → Adds host env url (m ∷ ms) before after
  one_more {call = call} {before = before} held rest = record {
    calls = call ∷ rest.calls;
    added = rest.added ∙ append_assoc before (call ∷ []) rest.calls;
    each = (held, rest.each);
  }

  handle_from_lem :
      (ms : List Message) (failures : List String) (w : World Calls)
      → All (IsCounted host) ms
      → ((handle_from host env rng work url ms failures w).0
          ≡ ok (failures ++ message_ids (failed work ms)))
        × Adds host env url
            (retried work ms)
            w.cloud
            (handle_from host env rng work url ms failures w).1.cloud
  unfolding handle_from ◌>>=◌ backoff_record
  handle_from_lem [] failures w counted =
      (rw append-nil, record { calls = []; added = rw append-nil; each = tt })
  handle_from_lem (m ∷ ms) failures w counted =
      let longer = failures ++ m.message_id ∷ [] in
      elim (Option-cases (parse_body work m)) [
        | inl broken ↦
            let rest = handle_from_lem ms longer w counted.1 in
            rw (counted.0.1, broken) (rw append_assoc at rest)
        | inr (body, parsed) ↦ elim (Bool-cases (work.raises body m)) [
          | inl bad ↦
              let later = (backoff_record host env rng work url m.receipt_handle counted.0.0 w).1 in
              let (ids, calls) = handle_from_lem ms longer later counted.1 in
              let held = held_back m counted.0.0 w.ids counted.0.1 in
              rw (counted.0.1, parsed, bad) (rw append_assoc at ids, one_more held calls)
          | inr good ↦
              let rest = handle_from_lem ms failures w counted.1 in
              rw (counted.0.1, parsed, good) rest
        ]
      ]

  -- Where the queue's URL is set and every receive count is an integer, the handler reports
  -- exactly the records that do not parse or whose work raises, in their order, and makes one call
  -- of change_message_visibility for exactly each record that parses and whose work raises, in
  -- their order: on that queue, with the record's receipt handle, and with a delay of at most 12
  -- hours, at most the cap, or 0 where the cap is negative, and at most the exponential curve of
  -- the record's own receive count.
  pub handle-Reports :
      (ms : List Message) (w : World Calls)
      → env "QUEUE_URL" ≡ some url
      → All (IsCounted host) ms
      → ((handle host env rng work ms w).0 ≡ ok (message_ids (failed work ms)))
        × Adds host env url (retried work ms) w.cloud (handle host env rng work ms w).1.cloud
  unfolding handle ◌>>=◌
  handle-Reports ms w set counted = rw set (handle_from_lem ms [] w counted)
