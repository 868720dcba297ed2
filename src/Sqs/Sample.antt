-- ===== src/Sqs/Sample.antt =====
-- A batch for the tests: of its three messages the second does not parse and the third's work
-- raises.
use aws_serverless_patterns.Prelude.{String, [], ◌∷◌, List, none, some, ◌==◌, if◌then◌else◌}
use aws_serverless_patterns.Py.Value.{str, is_text}
use aws_serverless_patterns.Sqs.{Message, Work}

abbrev pub sample_work : Work
sample_work = record {
  json_loads = λ s. if s == "{" then none else some (str s);
  raises = λ body m. is_text (some body) "down";
}

abbrev pub message : String → String → Message
message id body = record {
  message_id = id;
  receipt_handle = id;
  receive_count = none;
  body = some body;
}

abbrev pub sample_batch : List Message
sample_batch = message "m1" "up" ∷ message "m2" "{" ∷ message "m3" "down" ∷ []
