-- ===== src/Saga/Sample.antt =====
-- One order through the saga, for the tests: its events, and its saga once created.
use aws_serverless_patterns.Prelude.{none, refl, ◌≡◌, some}
use aws_serverless_patterns.Saga.Gate.{flaky_target, IsSteady, Addressed, IsFlaky}
use aws_serverless_patterns.Py.Value.{Fields, get, field, obj, str, int, float, end, arr, cons, nil}
use aws_serverless_patterns.Dynamo.Model.{Table, table_dynamo}
use aws_serverless_patterns.Saga.Handlers.{order_of, create_order, created, completed_detail}
use aws_serverless_patterns.Py.Host.{float_of, dict_get, subscript, len_of, int_of}
use aws_serverless_patterns.Saga.Create.{Acceptable, create_order-Ends}
use aws_serverless_patterns.Py.Sample.{sample_host, sample_world}
use aws_serverless_patterns.Saga.View.{Shows, noted, started, Saga}
use aws_serverless_patterns.Prelude.Int.{pos, ◌+ℤ◌}
use aws_serverless_patterns.Py.Exec.{World}
use aws_serverless_patterns.Saga.Rollback.{refund, Made, Missing, release}
use aws_serverless_patterns.Dynamo.{next_count}

abbrev pub order : Fields
order = field "order_id" (str "ord-1") (
    field "amount" (float (record { mantissa = pos 14999; scale = 2 }))
      (field "items" (arr (cons (obj end) nil)) end))

abbrev pub event : Fields
event =
    field "order" (obj order)
      (field "flaky_steps" (obj (field "charge_payment" (int (pos 3)) end)) end)

abbrev pub flaky_event : Fields
flaky_event =
    field "order" (obj order)
      (field "flaky_steps" (obj (field "create_order" (int (pos 2)) end)) end)

unfoldable pub event-Addressed : Addressed event "ord-1"
unfolding order_of subscript get
event-Addressed = record { order = order; valid = refl; keyed = refl; named = refl }

unfoldable pub flaky_event-Addressed : Addressed flaky_event "ord-1"
unfolding order_of subscript get
flaky_event-Addressed = record { order = order; valid = refl; keyed = refl; named = refl }

pub order-Acceptable : Acceptable sample_host order
unfolding float_of get
order-Acceptable = record {
  amount = record { mantissa = pos 14999; scale = 2 };
  priced = refl;
  positive = refl;
  filled = refl;
}

abbrev pub empty : Table
empty = λ k. none

pub IsSteady-create : IsSteady event "create_order"
unfolding flaky_target dict_get get
IsSteady-create = record { entry = none; listed = refl; falsy = refl }

pub IsSteady-reserve : IsSteady event "reserve_inventory"
unfolding flaky_target dict_get get
IsSteady-reserve = record { entry = none; listed = refl; falsy = refl }

pub IsFlaky-charge : IsFlaky sample_host event "charge_payment" (pos 3)
unfolding flaky_target dict_get get int_of
IsFlaky-charge = record { entry = int (pos 3); listed = refl; given = refl; number = refl }

pub IsFlaky-create : IsFlaky sample_host flaky_event "create_order" (pos 2)
unfolding flaky_target dict_get get int_of
IsFlaky-create = record { entry = int (pos 2); listed = refl; given = refl; number = refl }

abbrev pub created_world : World Table
created_world = (create_order table_dynamo sample_host event (sample_world empty)).1

abbrev pub created_saga : Saga
created_saga = noted "create_order" "DONE" (created (str "ord-1") 1) started

pub created-Shows : Shows table_dynamo "ord-1" created_saga created_world.cloud
unfolding get len_of event-Addressed
created-Shows =
    (create_order-Ends table_dynamo sample_host event event-Addressed order-Acceptable
      (sample_world empty) 1 IsSteady-create refl refl).after

unfoldable pub free_event : Fields
free_event = field "order" (obj (field "order_id" (str "ord-1") end)) end

unfoldable pub free_event-Addressed : Addressed free_event "ord-1"
unfolding free_event order_of subscript get
free_event-Addressed = record {
  order = field "order_id" (str "ord-1") end;
  valid = refl;
  keyed = refl;
  named = refl;
}

pub no_charge_yet : next_count (created_saga.attempts "charge_payment") ≡ some (pos 1)
unfolding ◌+ℤ◌
no_charge_yet = refl

abbrev pub failed_event : Fields
failed_event = field "order" (obj order) (
    field "results"
      (obj (
        field "payment" (obj (field "payment_id" (str "pay-1") end))
          (field "reservation" (obj (field "reservation_id" (str "rsv-1") end)) end)))
      end)

pub failed_event-Addressed : Addressed failed_event "ord-1"
unfolding order_of subscript get
failed_event-Addressed = record { order = order; valid = refl; keyed = refl; named = refl }

pub payment-Made : Made refund failed_event "pay-1"
unfolding completed_detail dict_get get
payment-Made = record {
  block = field "payment_id" (str "pay-1") end;
  read = refl;
  holds = refl;
  real = refl;
}

pub reservation-Made : Made release failed_event "rsv-1"
unfolding completed_detail dict_get get
reservation-Made = record {
  block = field "reservation_id" (str "rsv-1") end;
  read = refl;
  holds = refl;
  real = refl;
}

pub nothing_made : Missing refund event
unfolding completed_detail dict_get get
nothing_made = record { block = end; read = refl; lacks = refl }
