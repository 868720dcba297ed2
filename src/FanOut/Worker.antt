-- ===== src/FanOut/Worker.antt =====
-- patterns/fan-out/src/worker.py. The handler calls no service, so it is a function of the batch.
pub mod Report
use aws_serverless_patterns.Prelude.{String, List, [], ◌∷◌, ◌++◌, Option, none, some, if◌then◌else◌}
use aws_serverless_patterns.Py.Value.{Value}
use aws_serverless_patterns.Sqs.{Message, Work}

-- `json.loads(record["body"])`; `none` is a JSONDecodeError, or a KeyError without a body.
unfoldable pub parse_body : Work → Message → Option Value
parse_body work m = elim m.body [ none ↦ none | some body ↦ work.json_loads body ]

abbrev pub process_body : Work → Message → Option Value → List String → List String
process_body work m none failures = failures
process_body work m (some body) failures =
    if work.raises body m then failures ++ m.message_id ∷ [] else failures

unfoldable pub handler_from : Work → List Message → List String → List String
handler_from work [] failures = failures
handler_from work (m ∷ ms) failures =
    handler_from work ms (process_body work m (parse_body work m) failures)

-- The ids of `batchItemFailures`.
unfoldable pub handler : Work → List Message → List String
handler work records = handler_from work records []
