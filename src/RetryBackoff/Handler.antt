-- ===== src/RetryBackoff/Handler.antt =====
-- The batch handler and `_backoff_record`. The state is the list of the calls of
-- `change_message_visibility`; whether one raises changes nothing, since that is swallowed. The
-- counter of drawn ids counts the draws of the random source.
pub mod Report
use aws_serverless_patterns.Prelude.{
  String, ℕ, List, ◌++◌, Option, ◌∷◌, [], none, some, suc, ◌==◌, if◌then◌else◌,
}
use aws_serverless_patterns.Py.Exec.{ok, Exec, pure, lift, or_raise, key_error, ◌>>=◌, ◌>>◌}
use aws_serverless_patterns.Py.Host.{Host, Environment, int_env, int_of}
use aws_serverless_patterns.Sqs.{Work, Message}
use aws_serverless_patterns.Py.Value.{Value, obj, end, str}
use aws_serverless_patterns.RetryBackoff.Curve.{Jitter, compute_backoff_seconds}
use aws_serverless_patterns.Prelude.Int.{ℤ, pos}

pub record Visibility : Type 0 where
  pub queue_url : String
  pub receipt_handle : String
  pub timeout : ℕ

abbrev pub Calls : Type 0
Calls = List Visibility

abbrev pub Batch : Type 0 → Type 0
Batch A = Exec ⊥ Calls A

-- `json.loads(record["body"]) if record.get("body") else {}`; `none` is a JSONDecodeError.
abbrev pub parse_text : Work → Option String → Option Value
parse_text work none = some (obj end)
parse_text work (some body) = if body == "" then some (obj end) else work.json_loads body

unfoldable pub parse_body : Work → Message → Option Value
parse_body work m = parse_text work m.body

abbrev pub count_text : Message → String
count_text m = elim m.receive_count [ none ↦ "1" | some s ↦ s ]

abbrev pub change_message_visibility : Visibility → Batch (Unit {0})
change_message_visibility call w = (ok tt, record w { cloud = w.cloud ++ call ∷ [] })

module _ (host : Host) (env : Environment) (rng : Jitter) (work : Work) where
  abbrev pub draw_delay : ℤ → Batch ℕ
  draw_delay receive_count w = (
    ok (
        compute_backoff_seconds rng w.ids receive_count
          (int_env host env "BACKOFF_BASE_SECONDS" (pos 5))
          (int_env host env "BACKOFF_MAX_SECONDS" (pos 900))),
    record w { ids = suc w.ids },
  )

  unfoldable pub backoff_record : String → String → ℤ → Batch ℕ
  backoff_record queue_url receipt_handle receive_count = do
    delay ← draw_delay receive_count
    change_message_visibility
        (record { queue_url = queue_url; receipt_handle = receipt_handle; timeout = delay })
    pure delay

  abbrev pub process_body : String → Message → ℤ → Option Value → List String → Batch (List String)
  process_body queue_url m receive_count none failures = pure (failures ++ m.message_id ∷ [])
  process_body queue_url m receive_count (some body) failures =
      if work.raises body m
      then (do
        backoff_record queue_url m.receipt_handle receive_count
        pure (failures ++ m.message_id ∷ []))
      else pure failures

  unfoldable pub handle_from : String → List Message → List String → Batch (List String)
  handle_from queue_url [] failures = pure failures
  handle_from queue_url (m ∷ ms) failures = do
    receive_count ← lift (int_of host (str (count_text m)))
    failures' ← process_body queue_url m receive_count (parse_body work m) failures
    handle_from queue_url ms failures'

  unfoldable pub handle : List Message → Batch (List String)
  handle records = do
    queue_url ← or_raise (env "QUEUE_URL") key_error
    handle_from queue_url records []
