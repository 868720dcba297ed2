-- ===== src/Saga/Machine/Ledger.antt =====
-- What an execution's data and the item of its order say of each other: a step that is booked, and
-- one that is settled.
use aws_serverless_patterns.Prelude.{
  String, some, ◌≡◌, ◌∙◌, refl, false, ◌==◌, ◌⊎◌, inl, inr, eq_refl,
}
use aws_serverless_patterns.Py.Value.{Fields, obj, str, get}
use aws_serverless_patterns.Saga.Handlers.{Event}
use aws_serverless_patterns.Saga.View.{Saga}
use aws_serverless_patterns.Saga.Forward.{Forward, charge, reserve, ship, step_name, id_name}
use aws_serverless_patterns.Saga.Rollback.{Backward, result_name, undone_id, undo_name}
use aws_serverless_patterns.Saga.Machine.{set_in}
use aws_serverless_patterns.Saga.Machine.Data.{slot, slot-set_in, Holds, Holds-keep, Lacks}
use aws_serverless_patterns.Saga.Machine.Ids.{Recorded}

-- The name in `$.results` of what a forward step returned.
abbrev pub slot_name : Forward → String
slot_name charge = "payment"
slot_name reserve = "reservation"
slot_name ship = "shipment"

-- The results hold the id that the step recorded as DONE.
pub record Booked (f : Forward) (event : Event) (saga : Saga) : Type 0 where
  pub id : String
  pub held : Holds (slot_name f) (id_name f) event id
  pub recorded : Recorded (step_name f) (id_name f) id saga

-- The results hold an id, and the compensation recorded this id as DONE.
pub record Undone (b : Backward) (event : Event) (saga : Saga) : Type 0 where
  pub id : String
  pub held : Holds (result_name b) (undone_id b) event id
  pub recorded : Recorded (undo_name b) (undone_id b) id saga

-- There is nothing to undo, or it is undone.
abbrev pub Settled : Backward → Event → Saga → Type 0
Settled b event saga = Lacks (result_name b) event ⊎ Undone b event saga

pub Holds-set_in :
    (name id_field : String) (r : Fields) (event : Event) {id : String}
    → get id_field r ≡ some (str id)
    → (id == "") ≡ false
    → Holds name id_field (set_in "results" name (obj r) event) id
Holds-set_in name id_field r event names real = record {
  block = r;
  stored = slot-set_in name name (obj r) event ∙ rw eq_refl refl;
  holds = names;
  real = real;
}

module _ {event event' : Event} {saga saga' : Saga} where
  pub Booked-keep :
      {f : Forward}
      → slot (slot_name f) event' ≡ slot (slot_name f) event
      → saga'.outcome (step_name f) ≡ saga.outcome (step_name f)
      → Booked f event saga
      → Booked f event' saga'
  Booked-keep same still h = record {
    id = h.id;
    held = Holds-keep same h.held;
    recorded = still ∙ h.recorded;
  }

  pub Settled-keep :
      {b : Backward}
      → slot (result_name b) event' ≡ slot (result_name b) event
      → saga'.outcome (undo_name b) ≡ saga.outcome (undo_name b)
      → Settled b event saga
      → Settled b event' saga'
  Settled-keep same still (inl gone) = inl (same ∙ gone)
  Settled-keep same still (inr h) =
      inr (record { id = h.id; held = Holds-keep same h.held; recorded = still ∙ h.recorded })
