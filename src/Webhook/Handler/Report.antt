-- ===== src/Webhook/Handler/Report.antt =====
-- The batch, described without its exceptions: which events reach the business logic, and which
-- messages stay in the queue.
use aws_serverless_patterns.Prelude.{
  String, List, [], ◌∷◌, ◌++◌, ◌≡◌, refl, ap, ◌∙◌, Bool, true, false, ◌||◌, Option, none, some,
  if◌then◌else◌,
}
use mathlib.Core.List.{append-nil, append_assoc}
use mathlib.Core.Bool.{or-false}
use aws_serverless_patterns.Py.Value.{Value}
use aws_serverless_patterns.Py.Exec.{Result, ok, err, Raised, World, ◌>>=◌, pure}
use aws_serverless_patterns.Webhook.Verify.{Bytes, WebhookError}
use aws_serverless_patterns.Webhook.Handler.{
  Consumer, WebhookMessage, Environment, source_of, is_retried, report, parse_body, verified,
  payload_after, verified_payload, finish_record, handle_from, handle, signing_key,
}
use aws_serverless_patterns.Py.Ends.{bind-eq-ok}

abbrev pub message_ids : List WebhookMessage → List String
message_ids [] = []
message_ids (m ∷ ms) = m.message_id ∷ message_ids ms

-- The payload of a message whose signature is good and whose body parses.
abbrev good_payload : Result (Raised WebhookError) Bool → Option Value → Option Value
good_payload (ok true) parsed = parsed
good_payload (ok false) parsed = none
good_payload (err e) parsed = none

abbrev pub events_of : String → Option Value → List (String × Value)
events_of source none = []
events_of source (some payload) = (source, payload) ∷ []

module _ (c : Consumer) where
  abbrev work_fails : String → Option Value → Bool
  work_fails source none = false
  work_fails source (some payload) = is_retried (c.process_event source payload)

  module _ (key : Bytes) where
    abbrev pub payload_of : WebhookMessage → Option Value
    payload_of m = good_payload (verified c key m) (parse_body c m)

    -- The check of the signature raises something else than SignatureError, or the work on the
    -- payload does.
    abbrev pub stays : WebhookMessage → Bool
    stays m = is_retried (verified c key m) || work_fails (source_of m) (payload_of m)

    abbrev pub kept : List WebhookMessage → List WebhookMessage
    kept [] = []
    kept (m ∷ ms) = let rest = kept ms in if stays m then m ∷ rest else rest

    abbrev pub accepted : List WebhookMessage → List (String × Value)
    accepted [] = []
    accepted (m ∷ ms) = events_of (source_of m) (payload_of m) ++ accepted ms

abbrev after : World Environment → List (String × Value) → World Environment
after w events = record w { cloud = record w.cloud { processed = w.cloud.processed ++ events } }

report_lem :
    (b : Bool) (m : WebhookMessage) (failures : List String) (rest : List WebhookMessage)
    → report b m failures ++ message_ids rest
      ≡ failures ++ message_ids (if b then m ∷ rest else rest)
report_lem true m failures rest = rw append_assoc refl
report_lem false m failures rest = refl

module _ (c : Consumer) where
  finish_by :
      (m : WebhookMessage) (v : Result (Raised WebhookError) Bool) (p : Option Value)
      (failures : List String) (w : World Environment)
      → finish_record c m (payload_after c v p) failures w ≡ (
        ok (report (is_retried v || work_fails c (source_of m) (good_payload v p)) m failures),
        after w (events_of (source_of m) (good_payload v p)),
      )
  unfolding ◌>>=◌ pure
  finish_by m (ok true) (some p) failures w = refl
  finish_by m (ok true) none failures w = rw append-nil
  finish_by m (ok false) p failures w = rw append-nil
  finish_by m (err e) p failures w = rw (or-false, append-nil)

  handle_from_lem :
      (key : Bytes) (ms : List WebhookMessage) (failures : List String) (w : World Environment)
      → handle_from c key ms failures w
        ≡ (ok (failures ++ message_ids (kept c key ms)), after w (accepted c key ms))
  unfolding handle_from verified_payload ◌>>=◌
  handle_from_lem key [] failures w = rw (append-nil, append-nil)
  handle_from_lem key (m ∷ ms) failures w =
      let done = finish_by m (verified c key m) (parse_body c m) failures w in
      let rest =
        handle_from_lem key ms (report (stays c key m) m failures)
          (after w (events_of (source_of m) (payload_of c key m))) in
      bind-eq-ok (finish_record c m (verified_payload c key m) failures) (handle_from c key ms) w
        done
      ∙ rest
      ∙ rw (report_lem (stays c key m) m failures, append_assoc) refl

  -- Given the signing key, the business logic is called exactly with the sources and payloads of
  -- the messages whose signature is good and whose body parses, in their order; and the response
  -- names exactly the messages where the check raises something else than SignatureError, or the
  -- business logic raises something else than the errors that drop a record.
  pub handle-reports_batch :
      (key : Bytes) (ms : List WebhookMessage) (w w' : World Environment)
      → signing_key c w ≡ (ok key, w')
      → ((handle c ms w).0 ≡ ok (message_ids (kept c key ms)))
        × ((handle c ms w).1.cloud.processed ≡ w'.cloud.processed ++ accepted c key ms)
  unfolding handle
  handle-reports_batch key ms w w' found =
      let run =
        bind-eq-ok (signing_key c) (λ k. handle_from c k ms []) w found
        ∙ handle_from_lem key ms [] w' in
      (ap (λ r. r.0) run, ap (λ r. r.1.cloud.processed) run)
