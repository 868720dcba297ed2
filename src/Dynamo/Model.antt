-- ===== src/Dynamo/Model.antt =====
-- A table that meets the interface: a function from keys to items.
use aws_serverless_patterns.Prelude.{String, refl, Option, true}
use aws_serverless_patterns.Py.Value.{float_free_fields}
use aws_serverless_patterns.Dynamo.Expression.{
  Item, storable, request_key, update_outcome, update_after, put_outcome, put_after, get_outcome,
}
use aws_serverless_patterns.Dynamo.Interface.{Dynamo}

abbrev pub Table : Type 0
Table = String → Option Item

abbrev pub table_dynamo : Dynamo Table
table_dynamo = record {
  item = λ t. t;
  get_item = λ t key. get_outcome (request_key true key) t;
  put_item = λ t key fields.
      let k = request_key (float_free_fields fields) key in (put_outcome k, put_after k fields t);
  update_item = λ t n key u.
      let k = request_key (storable u.sets) key in (update_outcome k n u t, update_after k n u t);
  get_result = λ t key. refl;
  put_result = λ t key fields. refl;
  item-put = λ t key fields j. refl;
  update_result = λ t n key u. refl;
  item-update = λ t n key u j. refl;
}
