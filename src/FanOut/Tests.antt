-- ===== src/FanOut/Tests.antt =====
-- The witnesses of this pattern's theorems.
use aws_serverless_patterns.Prelude.{[], ◌∷◌, ◌≡◌}
use aws_serverless_patterns.FanOut.Worker.{handler, parse_body}
use aws_serverless_patterns.FanOut.Worker.Report.{handler-Reports}
use aws_serverless_patterns.Sqs.Sample.{sample_work, sample_batch}

handler-Reports_example : handler sample_work sample_batch ≡ "m3" ∷ []
unfolding parse_body
handler-Reports_example = handler-Reports sample_work sample_batch
