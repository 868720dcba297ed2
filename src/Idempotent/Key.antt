-- ===== src/Idempotent/Key.antt =====
-- patterns/idempotent-processor/src/handler.py: the key of a record and the payload with it.
use aws_serverless_patterns.Prelude.{none, some, if◌then◌else◌, String, Option, ◌==◌}
use aws_serverless_patterns.Py.Fallible.{◌>>=◌, some_or}
use aws_serverless_patterns.Idempotent.Powertools.{Delivery, NoError}
use aws_serverless_patterns.Py.Host.{Host, dict_get, str_of}
use aws_serverless_patterns.Py.Value.{Value, Fields, obj, set, str, end, truthy}
use aws_serverless_patterns.Py.Exec.{Result, Raised, ok, value_error}

-- What the handler takes from outside: the JSON parser, where `none` is a JSONDecodeError, and the
-- hexdigest of the SHA-256 of a text in UTF-8.
pub record Reader : Type 0 where
  pub json_loads : String → Option Value
  pub sha256 : String → String

-- `if value: return str(value)`, and else what follows.
abbrev pub key_or :
    Host → Option Value → Result (Raised NoError) String → Result (Raised NoError) String
key_or host none rest = rest
key_or host (some v) rest = if truthy v then ok (str_of host v) else rest

unfoldable pub idempotency_key : Host → Reader → String → Value → Result (Raised NoError) String
idempotency_key host reader raw body = do
  explicit ← dict_get body "idempotency_key"
  id ← dict_get body "id"
  key_or host explicit (key_or host id (ok (reader.sha256 raw)))

-- `record.json_body if record.body else {}`
abbrev pub body_of : Reader → Delivery → Result (Raised NoError) Value
body_of reader m =
    if m.body == "" then ok (obj end) else some_or (reader.json_loads m.body) value_error

abbrev pub with_key : String → Value → Fields
with_key key (obj fs) = set "idempotency_key" (str key) fs
with_key key v = end

-- The payload of `process_payload`, which holds its key.
unfoldable pub payload_of : Host → Reader → Delivery → Result (Raised NoError) (String × Fields)
payload_of host reader m = do
  body ← body_of reader m
  key ← idempotency_key host reader m.body body
  ok (key, with_key key body)
