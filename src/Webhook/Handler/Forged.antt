-- ===== src/Webhook/Handler/Forged.antt =====
-- Signatures that are not ASCII.
use aws_serverless_patterns.Prelude.{
  String, List, [], ◌∷◌, true, false, some, ◌==◌, ◌≡◌, refl, ap, ◌∙◌, All,
}
use aws_serverless_patterns.Py.Exec.{ok, World}
use aws_serverless_patterns.Py.Text.{strip, remove_prefix, is_ascii}
use aws_serverless_patterns.Webhook.Verify.{Bytes, is_supported}
use aws_serverless_patterns.Webhook.Verify.Accepts.{verify_refuses}
use aws_serverless_patterns.Webhook.Handler.{
  Consumer, WebhookMessage, Environment, attr, text_or, body_of, handle, signing_key,
}
use aws_serverless_patterns.Webhook.Handler.Report.{message_ids, kept, handle-reports_batch}

-- The signature of the message has the prefix, and goes on with a text that is not ASCII.
pub record IsForeign (c : Consumer) (m : WebhookMessage) : Type 0 where
  pub candidate : String
  pub given : (text_or (attr m "signature") "" == "") ≡ false
  pub found :
      remove_prefix c.signature_prefix (strip (text_or (attr m "signature") "")) ≡ some candidate
  pub foreign : is_ascii (c.hmac.lower candidate) ≡ false

module _ (c : Consumer) (key : Bytes) (known : is_supported c.signature_algorithm ≡ true) where
  kept_foreign : (ms : List WebhookMessage) → All (IsForeign c) ms → kept c key ms ≡ ms
  kept_foreign [] all = refl
  kept_foreign (m ∷ ms) (f, fs) =
      let raised =
        verify_refuses c.hmac key (c.encode (body_of m)) c.signature_algorithm
          (text_or (attr m "signature") "") c.signature_prefix f.candidate f.given known f.found
          f.foreign in
      rw raised (ap (λ rest. m ∷ rest) (kept_foreign ms fs))

  -- With a supported algorithm, a batch of messages whose signatures carry the configured prefix
  -- and go on with a text that is not ASCII in lower case is reported whole: each of them goes
  -- back to the queue to be tried again.
  pub handle-keeps_foreign :
      (ms : List WebhookMessage) (w w' : World Environment)
      → All (IsForeign c) ms
      → signing_key c w ≡ (ok key, w')
      → (handle c ms w).0 ≡ ok (message_ids ms)
  handle-keeps_foreign ms w w' all found =
      (handle-reports_batch c key ms w w' found).0
      ∙ ap (λ l. ok (message_ids l)) (kept_foreign ms all)
