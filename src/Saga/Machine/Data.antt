-- ===== src/Saga/Machine/Data.antt =====
-- The data of an execution: what the states put into it, and what they keep.
use aws_serverless_patterns.Prelude.{
  String, Option, none, some, ◌≡◌, ◌∙◌, refl, false, ◌==◌, if◌then◌else◌, arith,
}
use aws_serverless_patterns.Py.Value.{
  Value, str, obj, Fields, end, field, get, set, get-set, or_else,
}
use aws_serverless_patterns.Py.Host.{dict_get}
use aws_serverless_patterns.Py.Exec.{ok}
use aws_serverless_patterns.Saga.Errors.{SagaError}
use aws_serverless_patterns.Saga.Handlers.{Event, completed_detail}
use aws_serverless_patterns.Saga.Task.{
  Task, create_order, charge_payment, reserve_inventory, schedule_shipment, complete_saga,
  release_inventory, refund_payment, cancel_order, mark_failed,
}
use aws_serverless_patterns.Saga.Rollback.{Backward, result_name, undone_id, Made}
use aws_serverless_patterns.Saga.Machine.{block_of, set_in, with_result, with_error}

-- What `results` holds under a name.
unfoldable pub slot : String → Event → Option Value
slot name event = get name (block_of (get "results" event))

pub slot-set_in :
    (l name : String) (v : Value) (event : Event)
    → slot l (set_in "results" name v event) ≡ (if name == l then some v else slot l event)
unfolding slot set_in
slot-set_in l name v event = rw get-set (rw get-set)

pub slot-compensation :
    (l name : String) (v : Value) (event : Event)
    → slot l (set_in "compensation" name v event) ≡ slot l event
unfolding slot set_in
slot-compensation l name v event = rw get-set refl

pub slot-error :
    (l : String) (v : Value) (event : Event) → slot l (set "error" v event) ≡ slot l event
unfolding slot
slot-error l v event = rw get-set refl

order-set :
    (outer : String) (v : Value) (event : Event)
    → (outer == "order") ≡ false
    → get "order" (set outer v event) ≡ get "order" event
order-set outer v event other = rw (get-set, other) refl

-- No state touches the order.
pub order-with_result :
    (task : Task) (r : Fields) (event : Event)
    → get "order" (with_result task r event) ≡ get "order" event
unfolding set_in
order-with_result create_order r event = order-set "results" _ event refl
order-with_result charge_payment r event = order-set "results" _ event refl
order-with_result reserve_inventory r event = order-set "results" _ event refl
order-with_result schedule_shipment r event = order-set "results" _ event refl
order-with_result complete_saga r event = order-set "results" _ event refl
order-with_result release_inventory r event = order-set "compensation" _ event refl
order-with_result refund_payment r event = order-set "compensation" _ event refl
order-with_result cancel_order r event = order-set "compensation" _ event refl
order-with_result mark_failed r event = order-set "results" _ event refl

pub order-with_error :
    (task : Task) (fault : Fields) (event : Event)
    → get "order" (with_error task fault event) ≡ get "order" event
unfolding set_in
order-with_error create_order fault event = order-set "error" _ event refl
order-with_error charge_payment fault event = order-set "error" _ event refl
order-with_error reserve_inventory fault event = order-set "error" _ event refl
order-with_error schedule_shipment fault event = order-set "error" _ event refl
order-with_error complete_saga fault event = refl
order-with_error release_inventory fault event = order-set "compensation" _ event refl
order-with_error refund_payment fault event = order-set "compensation" _ event refl
order-with_error cancel_order fault event = order-set "compensation" _ event refl
order-with_error mark_failed fault event = refl

-- `completed_detail` reads the slot.
block_detail :
    (v : Option Value) (l : String) (block : Fields)
    → get l (block_of v) ≡ some (obj block)
    → dict_get {E = SagaError} (or_else v (obj end)) l ≡ ok (some (obj block))
unfolding dict_get get
block_detail none l block e = ground arith
block_detail (some (obj end)) l block e = ground arith
block_detail (some (obj (field j w fs))) l block e = rw e refl
block_detail (some v) l block e = ground arith

pub completed_detail-slot :
    (event : Event) (l : String) (block : Fields)
    → slot l event ≡ some (obj block)
    → completed_detail event l ≡ ok block
unfolding slot completed_detail
completed_detail-slot event l end e =
    rw (block_detail (get "results" event) l end e, completed_detail) refl
completed_detail-slot event l (field j v fs) e =
    rw (block_detail (get "results" event) l (field j v fs) e, completed_detail) refl

-- No rule for an error touches the results.
pub slot-with_error :
    (task : Task) (fault : Fields) (event : Event) (l : String)
    → slot l (with_error task fault event) ≡ slot l event
slot-with_error create_order fault event l = slot-error l _ event
slot-with_error charge_payment fault event l = slot-error l _ event
slot-with_error reserve_inventory fault event l = slot-error l _ event
slot-with_error schedule_shipment fault event l = slot-error l _ event
slot-with_error complete_saga fault event l = refl
slot-with_error release_inventory fault event l = slot-compensation l "error" _ event
slot-with_error refund_payment fault event l = slot-compensation l "error" _ event
slot-with_error cancel_order fault event l = slot-compensation l "error" _ event
slot-with_error mark_failed fault event l = refl

-- The results hold an id: under a name, in a field.
pub record Holds (name id_field : String) (event : Event) (id : String) : Type 0 where
  pub block : Fields
  pub stored : slot name event ≡ some (obj block)
  pub holds : get id_field block ≡ some (str id)
  pub real : (id == "") ≡ false

-- They hold nothing under the name.
abbrev pub Lacks : String → Event → Type 0
Lacks name event = slot name event ≡ none

pub Holds-Made :
    (b : Backward) (event : Event) {id : String}
    → Holds (result_name b) (undone_id b) event id
    → Made b event id
Holds-Made b event h = record {
  block = h.block;
  read = completed_detail-slot event (result_name b) h.block h.stored;
  holds = h.holds;
  real = h.real;
}

pub Holds-keep :
    {name id_field id : String} {event event' : Event}
    → slot name event' ≡ slot name event
    → Holds name id_field event id
    → Holds name id_field event' id
Holds-keep same h = record {
  block = h.block;
  stored = same ∙ h.stored;
  holds = h.holds;
  real = h.real;
}
