-- ===== src/LongRunning/View.antt =====
-- The abstract job: what a reader of the item sees, without the payload and the times of writing.
use aws_serverless_patterns.Prelude.{ℕ, String, Bool, Option, some, ◌≡◌}
use aws_serverless_patterns.Prelude.Int.{ℤ, pos}
use aws_serverless_patterns.Py.Value.{Value, bool, int, str}
use aws_serverless_patterns.Dynamo.{Dynamo, Item}

pub record Job : Type 0 where
  pub status : String
  pub attempts : ℕ
  pub progress : ℤ
  pub succeed_after : ℤ
  pub fails : Bool
  pub token : Option Value
  pub signoff : Option Value

-- The item of `k` shows the job.
pub record Shows {T : Type 0} (d : Dynamo T) (k : String) (job : Job) (t : T) : Type 0 where
  pub item : Item
  pub found : d.item t k ≡ some item
  pub status_is : item "status" ≡ some (str job.status)
  pub attempts_is : item "attempts" ≡ some (int (pos job.attempts))
  pub progress_is : item "progress" ≡ some (int job.progress)
  pub succeed_after_is : item "succeed_after_attempts" ≡ some (int job.succeed_after)
  pub fails_is : item "fail_job" ≡ some (bool job.fails)
  pub token_is : item "task_token" ≡ job.token
  pub signoff_is : item "signoff_status" ≡ job.signoff
