-- ===== src/Approval/LinkTests.antt =====
-- The links of a mail and their refusals, on a table that holds one request.
use aws_serverless_patterns.Prelude.{
  none, some, [], ◌∷◌, if◌then◌else◌, ◌==◌, refl, ◌≡◌, inr, String,
}
use aws_serverless_patterns.Py.Value.{get, Fields, field, obj, str, end}
use aws_serverless_patterns.Py.Host.{Environment}
use aws_serverless_patterns.Py.Text.{
  ends_with, take, escape, strip, split_commas, strip_left, strip_right, strip_slashes,
}
use aws_serverless_patterns.Py.Exec.{ok}
use aws_serverless_patterns.Py.Gives.{Gives}
use aws_serverless_patterns.Py.Sample.{sample_host, sample_world}
use aws_serverless_patterns.Dynamo.Model.{table_dynamo}
use aws_serverless_patterns.Approval.Services.{task_failure}
use aws_serverless_patterns.Approval.Email.{render_email}
use aws_serverless_patterns.Approval.Email.Offers.{Written}
use aws_serverless_patterns.Approval.Handlers.{send_approval_email}
use aws_serverless_patterns.Approval.Handlers.Notify.{Mailed, send_approval_email-Gives, link}
use aws_serverless_patterns.Approval.Decision.{
  Request, action_of, decision_handler, was_decided, rejected,
}
use aws_serverless_patterns.Approval.Decision.Contract.{Answers}
use aws_serverless_patterns.Approval.Decision.Choice.{
  Chosen, approve, reject, named_action, reject_path, decided_request,
}
use aws_serverless_patterns.Approval.Decision.Links.{decision_handler-refuses}
use aws_serverless_patterns.Approval.Decision.Settles.{decision_handler-settles}
use aws_serverless_patterns.Approval.Sample.{
  sample_web, sample_services, sample_link, sample-Stands, sample_case, sample_fields, sample_query,
}

-- The request of a path, whose query names the other action.
abbrev path_link : String → String → Request
path_link path action = record { raw_path = some path; query = sample_query action }

approve_path_test : action_of sample_host (path_link "/prod/approve" "reject") ≡ "approve"
unfolding action_of ends_with
approve_path_test = refl

reject_path_test : action_of sample_host (path_link "/prod/reject" "approve") ≡ "reject"
unfolding action_of ends_with
reject_path_test = refl

approve_link-Chosen : Chosen sample_host (sample_link "approve") approve
unfolding ends_with
approve_link-Chosen = record { acts = named_action refl refl refl; named = refl; present = refl }

reject_link-Chosen : Chosen sample_host (path_link "/prod/reject" "approve") reject
unfolding ends_with
reject_link-Chosen = record { acts = reject_path refl refl refl; named = refl; present = refl }

decision_handler-refuses_example :
    decision_handler table_dynamo sample_host sample_web
      (sample_link "approve")
      (sample_world (sample_services "REJECTED"))
    ≡ (ok (was_decided "REJECTED"), sample_world (sample_services "REJECTED"))
unfolding get
decision_handler-refuses_example =
    decision_handler-refuses table_dynamo sample_host sample_web (sample_link "approve")
      (sample_world (sample_services "REJECTED"))
      (decided_request approve approve_link-Chosen (λ a. get a (sample_fields "REJECTED"))
        "REJECTED" refl refl (inr refl))

decision_handler-settles_example :
    Answers table_dynamo "r1"
      (decision_handler table_dynamo sample_host sample_web (path_link "/prod/reject" "approve"))
      (sample_world (sample_services "NOTIFIED"))
      (
        ok rejected,
        record {
          request = record {
            status = "REJECTED";
            token = some (str "t1");
            approver = some (str "unknown");
            comment = some (str "");
          };
          callbacks = task_failure "t9" "ApprovalRejected" "{}" ∷ [];
        },
      )
unfolding take
decision_handler-settles_example =
    decision_handler-settles table_dynamo sample_host sample_web reject
      (path_link "/prod/reject" "approve") (sample_world (sample_services "NOTIFIED"))
      reject_link-Chosen refl refl (sample-Stands "NOTIFIED")

abbrev mail_env : Environment
mail_env name =
    if name == "API_BASE_URL"
    then some "https://x/"
    else if name == "FROM_ADDRESS"
    then some "a@x"
    else if name == "APPROVER_ADDRESSES"
    then some "b@x"
    else none

abbrev notify_event : Fields
notify_event =
    field "task_token" (str "t2") (field "request" (obj (field "request_id" (str "r1") end)) end)

abbrev link_to : String → String
link_to action = link sample_web "https://x/" action "r1" "t2"

send_approval_email-Gives_example :
    Gives
      (Mailed table_dynamo "r1")
      (send_approval_email table_dynamo sample_host mail_env sample_web notify_event)
      (sample_world (sample_services "PENDING"))
      (ok (field "request_id" (str "r1") (field "status" (str "NOTIFIED") end)))
      (record {
        request = record {
          status = "NOTIFIED";
          token = some (str "t2");
          approver = none;
          comment = none;
        };
        outbox =
            record {
              source = "a@x";
              to_addresses = "b@x" ∷ [];
              subject = "[Approval Required] approval request";
              text =
                  "An approval is requested.\n\nTitle: approval request\nRequested by: unknown\n\nApprove: https://x/approve?request_id=r1&token=t2\nReject:  https://x/reject?request_id=r1&token=t2\n";
              html =
                  "<html><body style='font-family:system-ui,sans-serif;color:#1f2937'><h2>[Approval Required] approval request</h2><p>Requested by <strong>unknown</strong>.</p><p style='margin-top:1.5rem'><a href='https://x/approve?request_id=r1&amp;token=t2' style='background:#16a34a;color:#fff;padding:.6rem 1.2rem;border-radius:.4rem;text-decoration:none;margin-right:.75rem'>Approve</a><a href='https://x/reject?request_id=r1&amp;token=t2' style='background:#dc2626;color:#fff;padding:.6rem 1.2rem;border-radius:.4rem;text-decoration:none'>Reject</a></p></body></html>";
            }
            ∷ [];
      })
    × Written mail_env (link_to "approve") (link_to "reject") (
        render_email sample_host mail_env
          (field "request_id" (str "r1") end)
          (link_to "approve")
          (link_to "reject"))
unfolding get render_email escape strip split_commas strip_right strip_left strip_slashes
send_approval_email-Gives_example =
    send_approval_email-Gives table_dynamo sample_host mail_env sample_web notify_event
      (field "request_id" (str "r1") end) "r1" "t2" "https://x/"
      (sample_world (sample_services "PENDING"))
      {n = record { request = (sample_case "PENDING").request; outbox = [] }}
      (record { asked = refl; key_is = refl; named = refl; token_is = refl; present = refl }) refl
      (record { shown = (sample-Stands "PENDING").shown; posted = refl })
