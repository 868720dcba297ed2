-- ===== src/Approval/Services.antt =====
-- The services that the pattern calls: its table, Step Functions and SES. The state holds the table
-- and the log of the calls of the other two.
use aws_serverless_patterns.Prelude.{String, List, [], ◌∷◌, ◌++◌}
use aws_serverless_patterns.Py.Exec.{Result, ok, err, Raised, own, client_error, Exec}
use aws_serverless_patterns.Dynamo.{Dynamo}

-- `ApprovalInputError`, `AlreadyDecidedError`, and two exceptions of the Step Functions client.
pub data ApprovalError : Type 0 where
  approval_input_error already_decided task_timed_out task_does_not_exist : ApprovalError

-- `SendTaskSuccess` with its output, and `SendTaskFailure` with its error and cause.
pub data Callback : Type 0 where
  task_success : String → String → Callback
  task_failure : String → String → String → Callback

-- How Step Functions answers; `refused` is any other `ClientError`.
pub data Reply : Type 0 where
  accepted timed_out does_not_exist : Reply
  refused : String → Reply

pub record Email : Type 0 where
  pub source : String
  pub to_addresses : List String
  pub subject : String
  pub text : String
  pub html : String

pub record Services (T : Type 0) : Type 0 where
  pub table : T
  pub callbacks : List Callback
  pub outbox : List Email

abbrev pub outcome_of : Reply → Result (Raised ApprovalError) (Unit {0})
outcome_of accepted = ok tt
outcome_of timed_out = err (own task_timed_out)
outcome_of does_not_exist = err (own task_does_not_exist)
outcome_of (refused code) = err (client_error code)

module _ {T : Type 0} where
  -- The table as a part of the services.
  abbrev pub on_table : Dynamo T → Dynamo (Services T)
  on_table d = record {
    item = λ s. d.item s.table;
    get_item = λ s. d.get_item s.table;
    put_item =
        λ s key fields. let (r, t) = d.put_item s.table key fields in (r, record s { table = t });
    update_item = λ s name key u.
        let (r, t) = d.update_item s.table name key u in (r, record s { table = t });
    get_result = λ s. d.get_result s.table;
    put_result = λ s. d.put_result s.table;
    item-put = λ s. d.item-put s.table;
    update_result = λ s. d.update_result s.table;
    item-update = λ s. d.item-update s.table;
  }

  -- A call of Step Functions, whose answer may depend on all the calls before it.
  unfoldable pub send :
      (List Callback → Callback → Reply) → Callback → Exec ApprovalError (Services T) (Unit {0})
  send reply call w = (
    outcome_of (reply w.cloud.callbacks call),
    record w { cloud = record w.cloud { callbacks = w.cloud.callbacks ++ call ∷ [] } },
  )

  unfoldable pub send_email : Email → Exec ApprovalError (Services T) (Unit {0})
  send_email email w =
      (ok tt, record w { cloud = record w.cloud { outbox = w.cloud.outbox ++ email ∷ [] } })
