-- ===== src/Idempotent/Handler.antt =====
-- patterns/idempotent-processor/src/handler.py: the handlers.
pub mod Again
use aws_serverless_patterns.Prelude.{[], ◌∷◌, ◌++◌, List, String}
use aws_serverless_patterns.Py.Exec.{◌>>=◌, ◌>>◌, lift, ok, pure}
use aws_serverless_patterns.Idempotent.Powertools.{Powertools, Delivery, Handled}
use aws_serverless_patterns.Py.Host.{Host, subscript}
use aws_serverless_patterns.Idempotent.Key.{Reader, payload_of}
use aws_serverless_patterns.Py.Value.{Fields, field, str, end}

module _ {S : Type 0} (p : Powertools S) (host : Host) (reader : Reader) where
  -- The business logic, which users of the pattern replace, is a line of the log.
  abbrev perform : Fields → Handled S (Unit {0})
  perform payload w =
      (ok tt, record w { cloud = record w.cloud { performed = w.cloud.performed ++ payload ∷ [] } })

  unfoldable pub process_payload : Fields → Handled S Fields
  process_payload payload = do
    perform payload
    key ← lift (subscript payload "idempotency_key")
    pure (field "status" (str "processed") (field "idempotency_key" key end))

  unfoldable pub record_handler : Delivery → Handled S Fields
  record_handler m = do
    keyed ← lift (payload_of host reader m)
    p.idempotent process_payload keyed.1

  unfoldable pub handle : List Delivery → Handled S (List String)
  handle batch = p.process_partial_response record_handler batch
