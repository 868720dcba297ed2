-- ===== src/Dynamo/Frame.antt =====
-- What the requests of one item leave alone: the items of the other keys.
use aws_serverless_patterns.Prelude.{String, Bool, ◌≡◌, ◌≢◌, ◌∙◌, Option, eq_iff, arith}
use aws_serverless_patterns.Py.Value.{Value, str, Fields}
use aws_serverless_patterns.Py.Keeps.{Keeps, keeps_rules}
use aws_serverless_patterns.Dynamo.Expression.{Item, Update, request_key, update_after, put_after}
use aws_serverless_patterns.Dynamo.Interface.{Dynamo}
use aws_serverless_patterns.Dynamo.Client.{put_item, update_item, get_item}

-- A request whose key is another text, or no text, leaves the item of `j` alone.
other_update :
    (fits : Bool) (key : Value) (n : String) (u : Update) (old : String → Option Item) (j : String)
    → key ≢ str j
    → update_after (request_key fits key) n u old j ≡ old j
other_update fits (str k) n u old j ne = ground (arith, eq_iff k j)
other_update fits _ n u old j ne = ground arith

other_put :
    (fits : Bool) (key : Value) (fields : Fields) (old : String → Option Item) (j : String)
    → key ≢ str j
    → put_after (request_key fits key) fields old j ≡ old j
other_put fits (str k) fields old j ne = ground (arith, eq_iff k j)
other_put fits _ fields old j ne = ground arith

-- The item of `j` is still `x`.
abbrev pub HoldsItem : {T : Type 0} → Dynamo T → String → Option Item → T → Type 0
HoldsItem d j x t = d.item t j ≡ x

module _ {E T : Type 0} (d : Dynamo T) (j : String) (x : Option Item) where
  pub update_item-HoldsItem :
      (n : String) (key : Value) (u : Update)
      → key ≢ str j
      → Keeps {E = E} (HoldsItem d j x) (update_item d n key u)
  unfolding update_item
  update_item-HoldsItem n key u ne = record {
    at = λ w h. rw d.item-update (other_update _ key n u (d.item w.cloud) j ne ∙ h);
  }

  pub put_item-HoldsItem :
      (key : Value) (fields : Fields)
      → key ≢ str j
      → Keeps {E = E} (HoldsItem d j x) (put_item d key fields)
  unfolding put_item
  put_item-HoldsItem key fields ne = record {
    at = λ w h. rw d.item-put (other_put _ key fields (d.item w.cloud) j ne ∙ h);
  }

  pub get_item-HoldsItem : (key : Value) → Keeps {E = E} (HoldsItem d j x) (get_item d key)
  unfolding get_item
  get_item-HoldsItem key = record { at = λ w h. h }

pub ruleset client_rules =
    (keeps_rules, update_item-HoldsItem, put_item-HoldsItem, get_item-HoldsItem)
