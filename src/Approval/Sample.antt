-- ===== src/Approval/Sample.antt =====
-- A table that holds one request, and the answers of the other services, for the tests.
use aws_serverless_patterns.Prelude.{
  none, some, [], ◌∷◌, if◌then◌else◌, String, List, Option, ◌==◌, refl,
}
use aws_serverless_patterns.Py.Value.{get, Fields, field, obj, str, end}
use aws_serverless_patterns.Py.Host.{Environment}
use aws_serverless_patterns.Approval.Decision.{details, Request}
use aws_serverless_patterns.Approval.Handlers.{Web}
use aws_serverless_patterns.Approval.View.{Stands, Case}
use aws_serverless_patterns.Approval.Services.{Services, Callback, Reply, accepted, does_not_exist}
use aws_serverless_patterns.Dynamo.Model.{Table, table_dynamo}

abbrev pub sample_fields : String → Fields
sample_fields status =
    field "request_id" (str "r1") (field "status" (str status) (field "task_token" (str "t1") end))

abbrev pub sample_table : String → Table
sample_table status k = if k == "r1" then some (λ a. get a (sample_fields status)) else none

abbrev pub sample_services : String → Services Table
sample_services status = record { table = sample_table status; callbacks = []; outbox = [] }

abbrev pub sample_case : String → Case
sample_case status = record {
  request = record { status = status; token = some (str "t1"); approver = none; comment = none };
  callbacks = [];
}

pub sample-Stands :
    (status : String) → Stands table_dynamo "r1" (sample_case status) (sample_services status)
unfolding get
sample-Stands status = record {
  shown = record {
    item = λ a. get a (sample_fields status);
    found = refl;
    keyed = refl;
    status_is = refl;
    token_is = refl;
    approver_is = refl;
    comment_is = refl;
  };
  logged = refl;
}

abbrev pub said : Fields
said = details "rejected_by" "ann" "now" "no"

-- Step Functions takes the first call and no other.
abbrev pub sample_reply : List Callback → Callback → Reply
sample_reply [] call = accepted
sample_reply (c ∷ cs) call = does_not_exist

abbrev pub sample_web : Web
sample_web = record {
  quote = λ s. s;
  dumps = λ fs. "{}";
  loads = λ s. if s == "{}" then some (obj said) else none;
  iso = λ n. "now";
  reply = sample_reply;
}

abbrev pub no_env : Environment
no_env name = none

-- The token of another request, since no check looks at it.
abbrev pub sample_query : String → String → Option String
sample_query action name =
    if name == "request_id"
    then some "r1"
    else if name == "token"
    then some "t9"
    else if name == "action"
    then some action
    else none

abbrev pub sample_link : String → Request
sample_link action = record { raw_path = none; query = sample_query action }
