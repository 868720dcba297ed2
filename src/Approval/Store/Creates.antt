-- ===== src/Approval/Store/Creates.antt =====
-- What `create` writes: a request that waits, whatever was there before.
use aws_serverless_patterns.Prelude.{
  if◌then◌else◌, true, false, Bool, ◌+◌, suc, some, none, String, Option, ◌==◌, ℕ, ◌≡◌, refl, ltb,
  eq_refl,
}
use aws_serverless_patterns.Py.Value.{
  set, Value, Fields, get, float_free, Number, float_free_fields, str, or_else, obj, end, truthy,
}
use aws_serverless_patterns.Approval.View.{Approval, Shows}
use aws_serverless_patterns.Dynamo.{Dynamo}
use aws_serverless_patterns.Py.Host.{Host}
use aws_serverless_patterns.Approval.Store.{with_expiry, with_amount, create, base_item}
use aws_serverless_patterns.Dynamo.Client.{put_item}
use aws_serverless_patterns.Py.Exec.{◌>>=◌, World}
use aws_serverless_patterns.Py.Ends.{Ends}
use aws_serverless_patterns.Approval.Services.{ApprovalError}

abbrev pub pending : Approval
pending = record { status = "PENDING"; token = none; approver = none; comment = none }

-- The fields show a request that waits.
pub record Waits (k : String) (fields : Fields) : Type 0 where
  pub plain : float_free_fields fields ≡ true
  pub keyed : get "request_id" fields ≡ some (str k)
  pub status_is : get "status" fields ≡ some (str "PENDING")
  pub token_is : get "task_token" fields ≡ none
  pub approver_is : get "approver" fields ≡ none
  pub comment_is : get "decision_comment" fields ≡ none

new_item : Value → String → String → Value → Option Number → ℕ → ℕ → Option ℕ → Fields
new_item request_id title requester context amount created updated expires =
    with_expiry expires
      (with_amount amount (base_item request_id title requester context created updated))

new_item-Waits :
    (k title requester : String) (context : Value) (amount : Option Number) (created updated : ℕ)
    (expires : Option ℕ)
    → float_free context ≡ true
    → Waits k (new_item (str k) title requester context amount created updated expires)
unfolding new_item set get float_free
new_item-Waits k title requester context none created updated none plain = record {
  plain = rw plain;
  keyed = refl;
  status_is = refl;
  token_is = refl;
  approver_is = refl;
  comment_is = refl;
}
new_item-Waits k title requester context none created updated (some t) plain = record {
  plain = rw plain;
  keyed = refl;
  status_is = refl;
  token_is = refl;
  approver_is = refl;
  comment_is = refl;
}
new_item-Waits k title requester context (some a) created updated none plain = record {
  plain = rw plain;
  keyed = refl;
  status_is = refl;
  token_is = refl;
  approver_is = refl;
  comment_is = refl;
}
new_item-Waits k title requester context (some a) created updated (some t) plain = record {
  plain = rw plain;
  keyed = refl;
  status_is = refl;
  token_is = refl;
  approver_is = refl;
  comment_is = refl;
}

chosen_plain :
    (b : Bool) (v : Value) → float_free v ≡ true → float_free (if b then v else obj end) ≡ true
unfolding float_free
chosen_plain true v plain = plain
chosen_plain false v plain = refl

given_plain : (v : Value) → float_free v ≡ true → float_free (or_else (some v) (obj end)) ≡ true
given_plain v plain = chosen_plain (truthy v) v plain

module _ {T : Type 0} (d : Dynamo T) (host : Host) (k : String) (named : (k == "") ≡ false) where
  put_item-Waits :
      (fields : Fields) (w : World T)
      → Waits k fields
      → Ends {E = ApprovalError} (Shows d k) (put_item d (str k) fields) w tt pending
  unfolding put_item
  put_item-Waits fields w h = record {
    returned = rw (d.put_result, h.plain, named);
    after = record {
      item = λ a. get a fields;
      found = rw (d.item-put, h.plain, named, eq_refl);
      keyed = h.keyed;
      status_is = h.status_is;
      token_is = h.token_is;
      approver_is = h.approver_is;
      comment_is = h.comment_is;
    };
  }

  pub create-Ends :
      (title requester : String) (amount : Option Number) (context : Value) (ttl_seconds : ℕ)
      (w : World T)
      → float_free context ≡ true
      → ltb 0 ttl_seconds ≡ true
      → Ends
          (Shows d k)
          (create d host (str k) title amount requester context ttl_seconds)
          w
          tt
          pending
  unfolding create ◌>>=◌ new_item
  create-Ends title requester amount context ttl_seconds w plain lives =
      let new =
        put_item-Waits _ (record w { clock = suc (suc (suc w.clock)) })
          (new_item-Waits k title requester (or_else (some context) (obj end)) amount
            (host.time w.clock) (host.time (suc w.clock))
            (some (host.time (suc (suc w.clock)) + ttl_seconds)) (given_plain context plain)) in
      record { returned = rw lives new.returned; after = rw lives new.after }
