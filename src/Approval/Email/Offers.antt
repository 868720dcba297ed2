-- ===== src/Approval/Email/Offers.antt =====
-- handlers.py: what a mail that is written holds: the sender that is configured, and both links,
-- the approve link at Approve and the reject link at Reject, in its text and in its page.
use aws_serverless_patterns.Prelude.{
  String, List, ◌++◌, ◌∷◌, [], ◌≡◌, refl, some, none, inl, inr, ◌⊎◌, Option-cases, Bool-cases, true,
  arith,
}
use aws_serverless_patterns.Py.Exec.{Result, Raised, ok, err, own, key_error}
use aws_serverless_patterns.Py.Host.{Host, Environment, str_of}
use aws_serverless_patterns.Py.Text.{escape}
use aws_serverless_patterns.Py.Value.{Fields, get, get_or, str}
use aws_serverless_patterns.Approval.Services.{ApprovalError, approval_input_error, Email}
use aws_serverless_patterns.Approval.Email.{
  render_email, texts, recipients_of, is_nil, line_of, shown_amount, map_text, prefix_of,
}

pub record Offers (env : Environment) (approve_url reject_url : String) (email : Email)
    : Type 0 where
  pub sent_by : env "FROM_ADDRESS" ≡ some email.source
  pub sent_to : email.to_addresses ≡ recipients_of (env "APPROVER_ADDRESSES")
  pub text_before : List String
  pub text_is :
      email.text
      ≡ texts (text_before ++ "\nApprove: " ∷ approve_url ∷ "\nReject:  " ∷ reject_url ∷ "\n" ∷ [])
  pub html_before : List String
  pub html_is :
      email.html
      ≡ texts (
          html_before
          ++ "<p style='margin-top:1.5rem'><a href='"
            ∷ escape approve_url
            ∷ "' style='background:#16a34a;color:#fff;padding:.6rem 1.2rem;border-radius:.4rem;text-decoration:none;margin-right:.75rem'>Approve</a><a href='"
            ∷ escape reject_url
            ∷ "' style='background:#dc2626;color:#fff;padding:.6rem 1.2rem;border-radius:.4rem;text-decoration:none'>Reject</a></p></body></html>"
            ∷ [])

-- A mail that is written has both links; none is written where no sender or no approver is
-- configured.
abbrev pub Written : Environment → String → String → Result (Raised ApprovalError) Email → Type 0
Written env approve_url reject_url (ok email) = Offers env approve_url reject_url email
Written env approve_url reject_url (err e) =
    ((e ≡ key_error) × (env "FROM_ADDRESS" ≡ none))
    ⊎ ((e ≡ own approval_input_error) × (recipients_of (env "APPROVER_ADDRESSES") ≡ []))

nil_lem : (l : List String) → is_nil l ≡ true → l ≡ []
nil_lem [] e = refl
nil_lem (a ∷ l) e = ground arith

pub render_email-Written :
    (host : Host) (env : Environment) (request : Fields) (approve_url reject_url : String)
    → Written env approve_url reject_url (render_email host env request approve_url reject_url)
unfolding render_email
render_email-Written host env request approve_url reject_url =
    elim (Option-cases (env "FROM_ADDRESS")) [
      | inl unset ↦ rw unset (inl (refl, unset))
      | inr (source, set_to) ↦
          elim (Bool-cases (is_nil (recipients_of (env "APPROVER_ADDRESSES")))) [
            | inl nobody ↦ rw (set_to, nobody) (inr (refl, nil_lem _ nobody))
            | inr somebody ↦
                rw (set_to, somebody)
                  (record {
                    sent_by = set_to;
                    sent_to = refl;
                    text_before =
                        "An approval is requested.\n\nTitle: "
                        ∷ str_of host (get_or request "title" (str "approval request"))
                        ∷ "\nRequested by: "
                        ∷ str_of host (get_or request "requester" (str "unknown"))
                        ∷ "\n"
                        ∷ line_of "Amount: " (shown_amount host (get "amount" request)) "\n"
                        ∷ [];
                    text_is = refl;
                    html_before =
                        "<html><body style='font-family:system-ui,sans-serif;color:#1f2937'><h2>"
                        ∷ escape (prefix_of (env "EMAIL_SUBJECT_PREFIX"))
                        ∷ " "
                        ∷ escape (str_of host (get_or request "title" (str "approval request")))
                        ∷ "</h2><p>Requested by <strong>"
                        ∷ escape (str_of host (get_or request "requester" (str "unknown")))
                        ∷ "</strong>.</p>"
                        ∷ line_of "<p>Amount: <strong>"
                            (map_text escape (shown_amount host (get "amount" request)))
                            "</strong></p>"
                        ∷ [];
                    html_is = refl;
                  })
          ]
    ]
