-- ===== src/Webhook/Handler.antt =====
-- patterns/webhook-ingest/src/handler.py. The state is that of one execution environment: the cached
-- signing key, the number of secrets fetched, and the calls of `process_event`.
pub mod Report
pub mod Key
pub mod Forged
use aws_serverless_patterns.Prelude.{
  ℕ, suc, String, List, [], ◌∷◌, ◌++◌, Bool, true, false, not, Option, none, some, ◌==◌,
  if◌then◌else◌,
}
use aws_serverless_patterns.Py.Value.{Value, obj, end, get_or}
use aws_serverless_patterns.Py.Exec.{
  Result, ok, err, Raised, own, key_error, Exec, World, pure, lift, ◌>>=◌, ◌>>◌,
}
use aws_serverless_patterns.Py.Fallible
use aws_serverless_patterns.Webhook.Verify.{
  Bytes, Hmac, WebhookError, signature_error, unverified, json_decode_error, verify,
}
use aws_serverless_patterns.Py.Text.{text_or}

-- A secret of Secrets Manager, as it is fetched.
pub record Secret : Type 0 where
  pub secret_string : Option String
  pub secret_binary : Option Bytes

-- What the consumer takes from outside: the HMAC, the text encoding, the JSON parser, the n-th
-- answer of Secrets Manager, the business logic, and the deployment's two settings.
pub record Consumer : Type 0 where
  pub hmac : Hmac
  pub encode : String → Bytes
  pub json_loads : String → Option Value
  pub get_secret_value : ℕ → Result (Raised WebhookError) Secret
  pub process_event : String → Value → Result (Raised WebhookError) (Unit {0})
  pub signature_algorithm : String
  pub signature_prefix : String

-- A message whose attributes have a string value or none.
pub record WebhookMessage : Type 0 where
  pub message_id : String
  pub attributes : String → Option (Option String)
  pub body : Option String

pub record Environment : Type 0 where
  pub cached_key : Option Bytes
  pub fetches : ℕ
  pub processed : List (String × Value)

abbrev pub Ingest : Type 0 → Type 0
Ingest A = Exec WebhookError Environment A

-- `_attr`
abbrev pub attr : WebhookMessage → String → Option String
attr m name = elim (m.attributes name) [ none ↦ none | some value ↦ value ]

abbrev pub source_of : WebhookMessage → String
source_of m = text_or (attr m "source") "unknown"

abbrev pub body_of : WebhookMessage → String
body_of m = elim m.body [ none ↦ "" | some body ↦ body ]

-- The handler drops a record for its own exceptions, and reports it for any other.
abbrev pub is_other : Raised WebhookError → Bool
is_other (own e) = false
is_other _ = true

abbrev pub is_retried : {A : Type 0} → Result (Raised WebhookError) A → Bool
is_retried (ok a) = false
is_retried (err e) = is_other e

abbrev pub report : Bool → WebhookMessage → List String → List String
report failed m failures = if failed then failures ++ m.message_id ∷ [] else failures

module _ (c : Consumer) where
  abbrev pub secret_bytes : Secret → Result (Raised WebhookError) Bytes
  secret_bytes secret = elim secret.secret_string [
    | none ↦ Fallible.some_or secret.secret_binary key_error
    | some text ↦ ok (c.encode text)
  ]

  abbrev fetch : Ingest Secret
  fetch w = (
    c.get_secret_value w.cloud.fetches,
    record w { cloud = record w.cloud { fetches = suc w.cloud.fetches } },
  )

  abbrev keep : Bytes → Ingest (Unit {0})
  keep key w = (ok tt, record w { cloud = record w.cloud { cached_key = some key } })

  abbrev pub key_from : Option Bytes → Ingest Bytes
  key_from (some key) = pure key
  key_from none = do secret ← fetch; key ← lift (secret_bytes secret); keep key; pure key

  -- `_signing_key` under `lru_cache`, which keeps a returned key and no raise.
  unfoldable pub signing_key : Ingest Bytes
  signing_key w = key_from w.cloud.cached_key w

  -- `json.loads(body) if body else {}`; `none` is a JSONDecodeError.
  abbrev pub parse_body : WebhookMessage → Option Value
  parse_body m = if body_of m == "" then some (obj end) else c.json_loads (body_of m)

  abbrev pub verified : Bytes → WebhookMessage → Result (Raised WebhookError) Bool
  verified key m =
      verify c.hmac key (c.encode (body_of m)) (text_or (attr m "signature") "")
        c.signature_algorithm c.signature_prefix

  abbrev pub payload_after :
      Result (Raised WebhookError) Bool → Option Value → Result (Raised WebhookError) Value
  payload_after verdict parsed = Fallible.◌>>=◌ verdict (λ good.
      Fallible.◌>>◌ (Fallible.guard_not (not good) (own unverified))
        (Fallible.some_or parsed (own json_decode_error)))

  -- Of the `try` block what stands before `process_event`.
  unfoldable pub verified_payload : Bytes → WebhookMessage → Result (Raised WebhookError) Value
  verified_payload key m = payload_after (verified key m) (parse_body m)

  abbrev pub call : String → Value → Ingest (Result (Raised WebhookError) (Unit {0}))
  call source payload w = (
    ok (c.process_event source payload),
    record w { cloud = record w.cloud { processed = w.cloud.processed ++ (source, payload) ∷ [] } },
  )

  abbrev pub finish_record :
      WebhookMessage → Result (Raised WebhookError) Value → List String → Ingest (List String)
  finish_record m (err e) failures = pure (report (is_retried {A = Value} (err e)) m failures)
  finish_record m (ok payload) failures = do
    result ← call (source_of m) payload
    pure (report (is_retried result) m failures)

  unfoldable pub handle_from : Bytes → List WebhookMessage → List String → Ingest (List String)
  handle_from key [] failures = pure failures
  handle_from key (m ∷ ms) failures = do
    failures' ← finish_record m (verified_payload key m) failures
    handle_from key ms failures'

  unfoldable pub handle : List WebhookMessage → Ingest (List String)
  handle records = do key ← signing_key; handle_from key records []
