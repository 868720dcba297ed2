-- ===== src/Sqs.antt =====
-- What an SQS event source hands to a consumer, as AWS documents it, and what the consumers take
-- from outside: the JSON parser, and the work on one message, which users of the patterns replace.
pub mod Sample
use aws_serverless_patterns.Prelude.{[], ◌∷◌, String, List, Option, Bool}
use aws_serverless_patterns.Py.Value.{Value}

-- `receive_count` is the attribute `ApproximateReceiveCount`.
pub record Message : Type 0 where
  pub message_id : String
  pub receipt_handle : String
  pub receive_count : Option String
  pub body : Option String

pub record Work : Type 0 where
  pub json_loads : String → Option Value
  pub raises : Value → Message → Bool

abbrev pub message_ids : List Message → List String
message_ids [] = []
message_ids (m ∷ ms) = m.message_id ∷ message_ids ms
