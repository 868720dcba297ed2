-- ===== src/Dynamo/Interface.antt =====
-- The boto3 resource of one table whose key is one text attribute. `item t k` is what the table
-- holds under `k`. The laws say that a call acts on its key alone, atomically, and how,
-- for requests within DynamoDB's limits on the size of items and keys and on the range of numbers.
use aws_serverless_patterns.Prelude.{String, true, ◌≡◌, Option}
use aws_serverless_patterns.Py.Value.{Value, Fields, float_free_fields}
use aws_serverless_patterns.Py.Exec.{Result}
use aws_serverless_patterns.Dynamo.Expression.{
  Item, Fault, Update, storable, request_key, update_outcome, update_after, put_outcome, put_after,
  get_outcome,
}

pub record Dynamo (T : Type 0) : Type 0 where
  pub item : T → String → Option Item
  pub get_item : T → Value → Result Fault (Option Item)
  pub put_item : T → Value → Fields → Result Fault (Unit {0}) × T
  pub update_item : T → String → Value → Update → Result Fault Item × T
  pub get_result :
      (t : T) (key : Value) → get_item t key ≡ get_outcome (request_key true key) (item t)
  pub put_result :
      (t : T) (key : Value) (fields : Fields)
      → (put_item t key fields).0 ≡ put_outcome (request_key (float_free_fields fields) key)
  pub item-put :
      (t : T) (key : Value) (fields : Fields) (j : String)
      → item (put_item t key fields).1 j
        ≡ put_after (request_key (float_free_fields fields) key) fields (item t) j
  pub update_result :
      (t : T) (n : String) (key : Value) (u : Update)
      → (update_item t n key u).0 ≡ update_outcome (request_key (storable u.sets) key) n u (item t)
  pub item-update :
      (t : T) (n : String) (key : Value) (u : Update) (j : String)
      → item (update_item t n key u).1 j
        ≡ update_after (request_key (storable u.sets) key) n u (item t) j
