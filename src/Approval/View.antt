-- ===== src/Approval/View.antt =====
-- The abstract request: its status, the token that waits for it, and the decision, once made.
use aws_serverless_patterns.Prelude.{String, Option, some, ◌≡◌, List}
use aws_serverless_patterns.Py.Value.{Value, str}
use aws_serverless_patterns.Dynamo.{Dynamo, Item}
use aws_serverless_patterns.Approval.Services.{Services, Callback, on_table}

pub record Approval : Type 0 where
  pub status : String
  pub token : Option Value
  pub approver : Option Value
  pub comment : Option Value

-- The item of `k` shows the request.
pub record Shows {T : Type 0} (d : Dynamo T) (k : String) (request : Approval) (t : T)
    : Type 0 where
  pub item : Item
  pub found : d.item t k ≡ some item
  pub keyed : item "request_id" ≡ some (str k)
  pub status_is : item "status" ≡ some (str request.status)
  pub token_is : item "task_token" ≡ request.token
  pub approver_is : item "approver" ≡ request.approver
  pub comment_is : item "decision_comment" ≡ request.comment

abbrev pub decided : String → String → String → Approval → Approval
decided decision approver comment request = record request {
  status = decision;
  approver = some (str approver);
  comment = some (str comment);
}

-- A request together with the calls of Step Functions so far.
pub record Case : Type 0 where
  pub request : Approval
  pub callbacks : List Callback

pub record Stands {T : Type 0} (d : Dynamo T) (k : String) (c : Case) (s : Services T)
    : Type 0 where
  pub shown : Shows d k c.request s.table
  pub logged : s.callbacks ≡ c.callbacks

-- The table alone, and as a part of the services, shows the same.
module _ {T : Type 0} {d : Dynamo T} {k : String} {request : Approval} where
  pub Shows-on_table : (s : Services T) → Shows d k request s.table → Shows (on_table d) k request s
  Shows-on_table s h = record {
    item = h.item;
    found = h.found;
    keyed = h.keyed;
    status_is = h.status_is;
    token_is = h.token_is;
    approver_is = h.approver_is;
    comment_is = h.comment_is;
  }

  pub Shows-table : (s : Services T) → Shows (on_table d) k request s → Shows d k request s.table
  Shows-table s h = record {
    item = h.item;
    found = h.found;
    keyed = h.keyed;
    status_is = h.status_is;
    token_is = h.token_is;
    approver_is = h.approver_is;
    comment_is = h.comment_is;
  }
