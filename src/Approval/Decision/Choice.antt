-- ===== src/Approval/Decision/Choice.antt =====
-- handlers.py: `decision_handler`. What a link asks for, told by its path and its query alone, and
-- why a link is refused.
use aws_serverless_patterns.Prelude.{
  refl, ◌≡◌, String, Option, none, some, ◌==◌, true, false, Bool, ◌||◌, ◌⊎◌, arith, not,
}
use aws_serverless_patterns.Py.Host.{Host}
use aws_serverless_patterns.Py.Value.{str}
use aws_serverless_patterns.Py.Text.{text_or, ends_with}
use aws_serverless_patterns.Dynamo.{Item}
use aws_serverless_patterns.Approval.Decision.{
  Request, Response, action_of, is_action, is_malformed, parameter, invalid_link, not_found,
  was_decided, not,
}

abbrev pub path_of : Request → String
path_of request = text_or request.raw_path ""

-- The path names the action, and else the query does, in any case of its letters.
pub data Acts (host : Host) (request : Request) (action : String) : Type 0 where
  approve_path :
      ends_with (path_of request) "/approve" ≡ true → action ≡ "approve" → Acts host request action
  reject_path :
      ends_with (path_of request) "/approve" ≡ false
      → ends_with (path_of request) "/reject" ≡ true
      → action ≡ "reject"
      → Acts host request action
  named_action :
      ends_with (path_of request) "/approve" ≡ false
      → ends_with (path_of request) "/reject" ≡ false
      → action ≡ host.lower (text_or (request.query "action") "")
      → Acts host request action

pub acts_lem :
    (host : Host) (request : Request) (action : String)
    → Acts host request action
    → action_of host request ≡ action
unfolding action_of
acts_lem host request action (approve_path p e) = rw (p, e) refl
acts_lem host request action (reject_path p q e) = rw (p, q, e) refl
acts_lem host request action (named_action p q e) = rw (p, q, e) refl

pub data Choice : Type 0 where
  approve reject : Choice

abbrev pub choice_name : Choice → String
choice_name approve = "approve"
choice_name reject = "reject"

-- A link that makes a choice for a request, with a token.
pub record Chosen (host : Host) (request : Request) (choice : Choice) : Type 0 where
  pub acts : Acts host request (choice_name choice)
  pub named : (parameter request "request_id" == "") ≡ false
  pub present : (parameter request "token" == "") ≡ false

-- Why a link is refused, with the answer; `found` is the item of its request.
pub data Refusal (host : Host) (request : Request) (found : Option Item) : Response → Type 0 where
  unknown_action :
      (action : String)
      → Acts host request action
      → (action == "approve") ≡ false
      → (action == "reject") ≡ false
      → Refusal host request found invalid_link
  no_request_id : parameter request "request_id" ≡ "" → Refusal host request found invalid_link
  no_token : parameter request "token" ≡ "" → Refusal host request found invalid_link
  unknown_request :
      (choice : Choice)
      → Chosen host request choice
      → found ≡ none
      → Refusal host request found not_found
  decided_request :
      (choice : Choice)
      → Chosen host request choice
      → (item : Item) (status : String) → found ≡ some item
      → item "status" ≡ some (str status)
      → (status ≡ "APPROVED") ⊎ (status ≡ "REJECTED")
      → Refusal host request found (was_decided (host.lower status))

module _ (host : Host) (request : Request) where
  choice_known : (choice : Choice) → is_action (choice_name choice) ≡ true
  choice_known approve = refl
  choice_known reject = refl

  pub sound_choice :
      (choice : Choice) → Chosen host request choice → is_malformed host request ≡ false
  sound_choice choice h =
      rw (acts_lem host request _ h.acts, choice_known choice, h.named, h.present) refl

  pub malformed_action :
      (action : String)
      → Acts host request action
      → (action == "approve") ≡ false
      → (action == "reject") ≡ false
      → is_malformed host request ≡ true
  malformed_action action h p q = rw (acts_lem host request action h, p, q) refl

  or_last : (a b : Bool) → (a || b || true) ≡ true
  or_last a b = ground arith

  or_middle : (a b : Bool) → (a || true || b) ≡ true
  or_middle a b = ground arith

  pub malformed_id : parameter request "request_id" ≡ "" → is_malformed host request ≡ true
  malformed_id e = rw e (or_middle _ _)

  pub malformed_token : parameter request "token" ≡ "" → is_malformed host request ≡ true
  malformed_token e =
      rw e
        (or_last (not (is_action (action_of host request))) (parameter request "request_id" == ""))
