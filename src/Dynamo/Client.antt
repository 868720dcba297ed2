-- ===== src/Dynamo/Client.antt =====
-- A table's calls as effects: a fault becomes the exception that boto3 raises.
use aws_serverless_patterns.Prelude.{String, Option}
use aws_serverless_patterns.Py.Value.{Value, Fields}
use aws_serverless_patterns.Py.Exec.{Result, ok, err, Raised, type_error, client_error, Exec}
use aws_serverless_patterns.Dynamo.Expression.{
  Item, Fault, validation, condition_failed, float_refused, Update,
}
use aws_serverless_patterns.Dynamo.Interface.{Dynamo}

module _ {E : Type 0} where
  abbrev pub as_exception : Fault → Raised E
  as_exception validation = client_error "ValidationException"
  as_exception condition_failed = client_error "ConditionalCheckFailedException"
  as_exception float_refused = type_error

  abbrev pub as_result : {A : Type 0} → Result Fault A → Result (Raised E) A
  as_result (ok a) = ok a
  as_result (err e) = err (as_exception e)

module _ {E T : Type 0} (d : Dynamo T) where
  unfoldable pub get_item : Value → Exec E T (Option Item)
  get_item key w = (as_result (d.get_item w.cloud key), w)

  unfoldable pub put_item : Value → Fields → Exec E T (Unit {0})
  put_item key fields w =
      let (r, t) = d.put_item w.cloud key fields in (as_result r, record w { cloud = t })

  unfoldable pub update_item : String → Value → Update → Exec E T Item
  update_item key_name key u w =
      let (r, t) = d.update_item w.cloud key_name key u in (as_result r, record w { cloud = t })
