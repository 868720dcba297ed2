-- ===== src/Approval/Handlers/Prepare.antt =====
-- `prepare_request` writes a request that waits.
use aws_serverless_patterns.Dynamo.{Dynamo}
use aws_serverless_patterns.Prelude.Int.{pos}
use aws_serverless_patterns.Py.Host.{float_of, Host, Environment, str_of}
use aws_serverless_patterns.Approval.Handlers.{
  Event, Web, prepare_request, title_of, end, amount_of, amount_value, default_ttl_seconds,
}
use aws_serverless_patterns.Prelude.{
  ℕ, ◌<◌, ◌≤◌, ◌^◌, none, String, Option, ◌≡◌, some, ◌==◌, false, true, refl,
}
use aws_serverless_patterns.Py.Value.{
  Number, null, int, float, get, field, str, float_free, get_or, or_else, obj,
}
use aws_serverless_patterns.Py.Exec.{◌>>=◌, pure, World, ok}
use aws_serverless_patterns.Approval.Services.{Services, on_table}
use aws_serverless_patterns.Py.Ends.{Ends}
use aws_serverless_patterns.Approval.View.{Shows}
use aws_serverless_patterns.Approval.Store.Creates.{pending, create-Ends}

-- The amount that a request names: none, a whole number that a float holds exactly, or a decimal of
-- at most 15 digits, 20 of them after the point.
pub data Names (spec : Event) : Option Number → Type 0 where
  no_amount : get "amount" spec ≡ none → Names spec none
  null_amount : get "amount" spec ≡ some null → Names spec none
  whole_amount :
      (n : ℕ)
      → n < 2 ^ 53
      → get "amount" spec ≡ some (int (pos n))
      → Names spec (some (record { mantissa = pos n; scale = 0 }))
  decimal_amount :
      (n digits : ℕ)
      → n < 10 ^ 15
      → digits ≤ 20
      → get "amount" spec ≡ some (float (record { mantissa = pos n; scale = digits }))
      → Names spec (some (record { mantissa = pos n; scale = digits }))

-- A request that is well-formed.
pub record Requested (spec : Event) (k title : String) (amount : Option Number) : Type 0 where
  pub titled : get "title" spec ≡ some (str title)
  pub title_named : (title == "") ≡ false
  pub amount_is : Names spec amount
  pub key_is : get "request_id" spec ≡ some (str k)
  pub named : (k == "") ≡ false
  pub plain : float_free (or_else (get "context" spec) (obj end)) ≡ true

title_lem :
    (spec : Event) (title : String)
    → get "title" spec ≡ some (str title)
    → (title == "") ≡ false
    → title_of (get "title" spec) ≡ ok title
title_lem spec title titled named = rw (titled, named) refl

amount_lem :
    (host : Host) (spec : Event) (amount : Option Number)
    → Names spec amount
    → amount_of host (get "amount" spec) ≡ ok amount
unfolding float_of
amount_lem host spec amount (no_amount e) = rw e refl
amount_lem host spec amount (null_amount e) = rw e refl
amount_lem host spec amount (whole_amount n small e) = rw e refl
amount_lem host spec amount (decimal_amount n digits small few e) = rw e refl

module _ {T : Type 0} (d : Dynamo T) (host : Host) (env : Environment) (web : Web) where
  -- For a title and a request_id that are texts and not empty, an amount that is missing, null, a
  -- whole number below 2^53 or a decimal of at most 15 digits and 20 places, neither of them
  -- negative, and a context without floats, prepare_request returns the request and leaves in the
  -- table, whatever was there before, a PENDING request without token and decision.
  pub prepare_request-Ends :
      (spec : Event) (k title : String) (amount : Option Number) (w : World (Services T))
      → Requested spec k title amount
      → Ends
          (Shows (on_table d) k)
          (prepare_request d host env web spec)
          w
          (field "request_id" (str k) (
            field "title" (str title) (
              field "amount" (amount_value amount) (
                field "requester"
                  (str (str_of host (get_or spec "requester" (str "unknown"))))
                  end))))
          pending
  unfolding prepare_request ◌>>=◌ pure
  prepare_request-Ends spec k title amount w h =
      let new =
        create-Ends (on_table d) host k h.named title
          (str_of host (get_or spec "requester" (str "unknown"))) amount
          (or_else (get "context" spec) (obj end)) default_ttl_seconds w h.plain refl in
      record {
        returned = rw (
          title_lem spec title h.titled h.title_named,
          h.key_is,
          h.named,
          amount_lem host spec amount h.amount_is,
          new.returned,
        );
        after =
            rw
              (
                title_lem spec title h.titled h.title_named,
                h.key_is,
                h.named,
                amount_lem host spec amount h.amount_is,
                new.returned,
              )
              new.after;
      }
