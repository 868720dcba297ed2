-- ===== src/Approval/Store/Decides.antt =====
-- Only the first decision is recorded.
use aws_serverless_patterns.Prelude.{
  suc, String, Bool, true, false, ◌||◌, some, ◌==◌, ◌≡◌, refl, eq_refl,
}
use aws_serverless_patterns.Py.Value.{str, float_free}
use aws_serverless_patterns.Py.Host.{Host}
use aws_serverless_patterns.Py.Exec.{own, World, catch, ◌>>=◌}
use aws_serverless_patterns.Py.Ends.{Ends, Fails}
use aws_serverless_patterns.Dynamo.{Dynamo, set_attribute}
use aws_serverless_patterns.Dynamo.Client.{update_item, get_item}
use aws_serverless_patterns.Approval.Services.{already_decided}
use aws_serverless_patterns.Approval.View.{Approval, Shows, decided}
use aws_serverless_patterns.Approval.Store.{record_decision, attach_token, get_record, time_value}
use mathlib.Core.Bool.{or-false}

-- The request waits for a decision.
abbrev pub is_open : String → Bool
is_open status = status == "PENDING" || status == "NOTIFIED"

-- The same test as the condition of the update makes it.
listed :
    (status : String) {b : Bool}
    → is_open status ≡ b
    → (status == "PENDING" || (status == "NOTIFIED" || false)) ≡ b
listed status e = rw or-false e

module _ {T : Type 0} (d : Dynamo T) (host : Host) (k : String) (named : (k == "") ≡ false)
    (w : World T) {request : Approval} (h : Shows d k request w.cloud) where
  pub record_decision-Ends :
      (decision approver comment : String)
      → is_open request.status ≡ true
      → Ends
          (Shows d k)
          (record_decision d host (str k) decision approver comment)
          w
          tt
          (decided decision approver comment request)
  unfolding record_decision update_item catch ◌>>=◌ float_free
  record_decision-Ends decision approver comment waits = record {
    returned =
        rw (d.update_result, named, h.found, h.keyed, h.status_is, listed request.status waits);
    after =
        rw (d.update_result, named, h.found, h.keyed, h.status_is, listed request.status waits)
          (record {
            item = set_attribute "updated_at" (time_value (host.time (suc w.clock))) (
                set_attribute "decided_at" (time_value (host.time w.clock)) (
                  set_attribute "decision_comment" (str comment) (
                    set_attribute "approver" (str approver)
                      (set_attribute "status" (str decision) h.item))));
            found = rw (
              d.item-update,
              named,
              h.found,
              h.keyed,
              h.status_is,
              listed request.status waits,
              eq_refl,
            );
            keyed = h.keyed;
            status_is = refl;
            token_is = h.token_is;
            approver_is = refl;
            comment_is = refl;
          });
  }

  pub record_decision-Fails :
      (decision approver comment : String)
      → is_open request.status ≡ false
      → Fails
          (Shows d k)
          (record_decision d host (str k) decision approver comment)
          w
          (own already_decided)
          request
  unfolding record_decision update_item catch ◌>>=◌ float_free
  record_decision-Fails decision approver comment settled = record {
    raised =
        rw (d.update_result, named, h.found, h.keyed, h.status_is, listed request.status settled);
    after =
        rw (d.update_result, named, h.found, h.keyed, h.status_is, listed request.status settled)
          (record {
            item = h.item;
            found = rw (
              d.item-update,
              named,
              h.found,
              h.keyed,
              h.status_is,
              listed request.status settled,
              eq_refl,
            );
            keyed = h.keyed;
            status_is = h.status_is;
            token_is = h.token_is;
            approver_is = h.approver_is;
            comment_is = h.comment_is;
          });
  }

  pub get_record-Ends : Ends (Shows d k) (get_record d host (str k)) w (some h.item) request
  unfolding get_record get_item
  get_record-Ends = record { returned = rw (d.get_result, named, h.found); after = h }

  -- The token is stored, and the request is NOTIFIED, whatever its status was.
  pub attach_token-Ends :
      (token : String)
      → Ends
          (Shows d k)
          (attach_token d host (str k) (str token))
          w
          tt
          (record request { status = "NOTIFIED"; token = some (str token) })
  unfolding attach_token update_item ◌>>=◌ float_free
  attach_token-Ends token = record {
    returned = rw (d.update_result, named);
    after =
        rw (d.update_result, named)
          (record {
            item = set_attribute "updated_at" (time_value (host.time w.clock)) (
                set_attribute "status" (str "NOTIFIED")
                  (set_attribute "task_token" (str token) h.item));
            found = rw (d.item-update, named, h.found, eq_refl);
            keyed = h.keyed;
            status_is = refl;
            token_is = refl;
            approver_is = h.approver_is;
            comment_is = h.comment_is;
          });
  }
