-- ===== src/Approval/Tests.antt =====
-- The theorems of this pattern on a table that holds one request.
use aws_serverless_patterns.Prelude.{none, some, [], ◌∷◌, refl, ◌≡◌, true, arith}
use aws_serverless_patterns.Py.Value.{
  get, Fields, field, obj, str, end, int, float_free, float, set,
}
use aws_serverless_patterns.Py.Host.{float_of}
use aws_serverless_patterns.Approval.Decision.{
  action_of, cause_of, decision_handler, on_record, approved, decided_meanwhile,
}
use aws_serverless_patterns.Approval.Handlers.{prepare_request}
use aws_serverless_patterns.Approval.View.{Stands, Shows}
use aws_serverless_patterns.Approval.Services.{Services, task_failure, task_success, on_table}
use aws_serverless_patterns.Py.Text.{ends_with, take}
use aws_serverless_patterns.Dynamo.Model.{Table, table_dynamo}
use aws_serverless_patterns.Approval.Decision.Contract.{Answers}
use aws_serverless_patterns.Py.Sample.{sample_host, sample_world}
use aws_serverless_patterns.Py.Exec.{ok}
use aws_serverless_patterns.Approval.Decision.Links.{
  follow, follow-keeps_first, on_record-keeps_decision,
}
use aws_serverless_patterns.Approval.Decision.Refines.{decision_handler-refines_contract}
use aws_serverless_patterns.Approval.Outcome.{on_rejected}
use aws_serverless_patterns.Approval.Outcome.Reports.{on_rejected-reports}
use aws_serverless_patterns.Prelude.Int.{pos}
use aws_serverless_patterns.Py.Ends.{Ends}
use aws_serverless_patterns.Approval.Machine.{after_prepare, payload_lem}
use aws_serverless_patterns.Approval.Machine.Execution.{
  State, Execution, Step, Reach, undecided, prepares, asks,
}
use aws_serverless_patterns.Approval.Machine.Undecided.{Reach-undecided}
use aws_serverless_patterns.Approval.Store.Creates.{pending}
use aws_serverless_patterns.Approval.Handlers.Prepare.{prepare_request-Ends, whole_amount}
use aws_serverless_patterns.Approval.Sample.{
  no_env, sample_web, sample_services, sample_link, sample-Stands, sample_case, sample_fields,
}

decision_handler-refines_contract_example :
    Answers table_dynamo "r1"
      (decision_handler table_dynamo sample_host sample_web (sample_link "approve"))
      (sample_world (sample_services "NOTIFIED"))
      (
        ok approved,
        record {
          request = record {
            status = "APPROVED";
            token = some (str "t1");
            approver = some (str "unknown");
            comment = some (str "");
          };
          callbacks = task_success "t9" "{}" ∷ [];
        },
      )
unfolding action_of ends_with
decision_handler-refines_contract_example =
    decision_handler-refines_contract table_dynamo sample_host sample_web (sample_link "approve")
      (sample_world (sample_services "NOTIFIED")) refl (sample-Stands "NOTIFIED")

follow-keeps_first_example :
    Stands table_dynamo "r1"
      (record {
        request = record {
          status = "REJECTED";
          token = some (str "t1");
          approver = some (str "unknown");
          comment = some (str "");
        };
        callbacks = task_failure "t9" "ApprovalRejected" "{}" ∷ [];
      })
      (follow table_dynamo sample_host sample_web
        (sample_link "reject" ∷ sample_link "approve" ∷ [])
        (sample_world (sample_services "NOTIFIED"))).cloud
unfolding action_of ends_with cause_of take
follow-keeps_first_example =
    follow-keeps_first table_dynamo sample_host sample_web (sample_link "reject")
      (sample_link "approve" ∷ []) (sample_world (sample_services "NOTIFIED")) refl (refl, tt) refl
      refl (sample-Stands "NOTIFIED")

on_record-keeps_decision_example :
    Answers table_dynamo "r1"
      (on_record table_dynamo sample_host sample_web
        (sample_link "approve")
        (some (λ a. get a (sample_fields "NOTIFIED"))))
      (sample_world (sample_services "REJECTED"))
      (
        ok decided_meanwhile,
        record (sample_case "REJECTED") { callbacks = task_success "t9" "{}" ∷ [] },
      )
unfolding action_of ends_with get
on_record-keeps_decision_example =
    on_record-keeps_decision table_dynamo sample_host sample_web (sample_link "approve")
      (λ a. get a (sample_fields "NOTIFIED")) (sample_world (sample_services "REJECTED")) refl refl
      refl (sample-Stands "REJECTED")

abbrev outcome_event : Fields
outcome_event = field "request" (obj (field "request_id" (str "r1") end)) (
    field "decision" (obj (field "Error" (str "ApprovalRejected") (field "Cause" (str "{}") end)))
      end)

on_rejected-reports_example :
    on_rejected sample_web outcome_event
    ≡ ok (
        field "request_id" (str "r1") (
          field "outcome"
            (str "REJECTED")
            (field "rejected_by" (str "ann") (field "comment" (str "no") end))))
unfolding get take cause_of
on_rejected-reports_example =
    on_rejected-reports sample_web outcome_event (field "request_id" (str "r1") end)
      (field "Error" (str "ApprovalRejected") (field "Cause" (str "{}") end)) "ann" "now" "no"
      (record { asked = refl; told = refl }) refl refl refl

abbrev sample_spec : Fields
sample_spec =
    field "title" (str "a plan") (field "request_id" (str "r1") (field "amount" (int (pos 5)) end))

abbrev empty_services : Services Table
empty_services = record { table = λ k. none; callbacks = []; outbox = [] }

prepare_request-Ends_example :
    Ends
      (Shows (on_table table_dynamo) "r1")
      (prepare_request table_dynamo sample_host no_env sample_web sample_spec)
      (sample_world empty_services)
      (field "request_id" (str "r1") (
        field "title" (str "a plan") (
          field "amount"
            (float (record { mantissa = pos 5; scale = 0 }))
            (field "requester" (str "unknown") end))))
      pending
unfolding get float_of float_free
prepare_request-Ends_example =
    prepare_request-Ends table_dynamo sample_host no_env sample_web sample_spec "r1" "a plan"
      (some (record { mantissa = pos 5; scale = 0 })) (sample_world empty_services)
      (record {
        titled = refl;
        title_named = refl;
        amount_is = whole_amount 5 (omega arith) refl;
        key_is = refl;
        named = refl;
        plain = refl;
      })

-- The execution of a good request: prepared, and then asked in vain.
abbrev made_request : Fields
made_request = field "request_id" (str "r1") (
    field "title" (str "a plan") (
      field "amount" (float (record { mantissa = pos 5; scale = 0 }))
        (field "requester" (str "unknown") end)))

abbrev begun : Execution Table
begun = record {
  state = State.prepare_request;
  event = sample_spec;
  world = sample_world empty_services;
}

abbrev prepared_request : Execution Table
prepared_request = record {
  state = State.request_approval;
  event = after_prepare sample_spec made_request;
  world = prepares table_dynamo sample_host no_env sample_web begun;
}

abbrev handed_on : Fields
handed_on = field "task_token" (str "t1") (
    field "request" (obj (field "request" (obj made_request) end))
      (field "execution" (str "e1") end))

abbrev asked_in_vain : Execution Table
asked_in_vain = record {
  state = State.approval_error;
  event = set "error" (obj end) prepared_request.event;
  world = asks table_dynamo sample_host no_env sample_web handed_on prepared_request;
}

asked-Reach :
    Reach table_dynamo sample_host no_env sample_web sample_spec
      (sample_world empty_services)
      asked_in_vain
asked-Reach =
    Reach.later
      (Reach.later Reach.begin
        (Step.prepared made_request refl prepare_request-Ends_example.returned refl))
      (Step.ask_in_vain "t1" "e1" handed_on end refl
        (payload_lem table_dynamo sample_host no_env sample_web "t1" "e1" sample_spec made_request)
        refl)

Reach-undecided_example : undecided asked_in_vain.state ≡ true
Reach-undecided_example =
    Reach-undecided table_dynamo sample_host no_env sample_web asked_in_vain asked-Reach
