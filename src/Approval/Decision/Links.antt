-- ===== src/Approval/Decision/Links.antt =====
-- Links that are refused, and several links for one request.
use mathlib.Core.Path.{subst}
use mathlib.Core.Option.{some-injective, none-ne-some}
use aws_serverless_patterns.Prelude.{
  if◌then◌else◌, ap, sym, ◌∷◌, [], true, false, refl, Option, String, List, Bool, All, ◌≡◌, none,
  some, inl, inr,
}
use aws_serverless_patterns.Approval.Services.{
  timed_out, does_not_exist, refused, Reply, ApprovalError, Services, accepted,
}
use aws_serverless_patterns.Dynamo.{Dynamo, Item}
use aws_serverless_patterns.Py.Host.{Host}
use aws_serverless_patterns.Approval.Handlers.{Web}
use aws_serverless_patterns.Approval.Decision.{
  decision_handler, Request, is_malformed, parameter, is_decided, invalid_link, not_found,
  on_record, decide, Response, was_decided, status_text,
}
use aws_serverless_patterns.Approval.Store.{get_record}
use aws_serverless_patterns.Dynamo.Client.{get_item}
use aws_serverless_patterns.Py.Exec.{World, ◌>>=◌, ok, pure, Result, Raised}
use aws_serverless_patterns.Approval.Decision.Choice.{
  Refusal, unknown_action, no_request_id, no_token, unknown_request, decided_request, sound_choice,
  malformed_action, malformed_id, malformed_token,
}
use aws_serverless_patterns.Approval.View.{Case, Stands}
use aws_serverless_patterns.Approval.Store.Decides.{is_open}
use aws_serverless_patterns.Approval.Decision.Contract.{
  is_settled, call_of, Answers, resolved, logged, refusal, contract_settled, verdict_settled,
  after_reply, contract-accepted, thanks, settled_not_open,
}
use aws_serverless_patterns.Approval.Decision.Refines.{
  named_lem, decision_handler-refines_contract, followed-Gives,
}

module _ {T : Type 0} (d : Dynamo T) (host : Host) (web : Web) where
  -- Why a link is refused before Step Functions is called: it is malformed, or its request is
  -- unknown or already decided.
  abbrev pub refused_by : Bool → Option Item → Option Response
  refused_by true found = some invalid_link
  refused_by false none = some not_found
  refused_by false (some item) =
      if is_decided item
      then some (was_decided (host.lower (status_text (item "status"))))
      else none

  malformed_link :
      (request : Request) (w : World (Services T))
      → is_malformed host request ≡ true
      → decision_handler d host web request w ≡ (ok invalid_link, w)
  unfolding decision_handler pure
  malformed_link request w bad = rw bad refl

  sound_link :
      (request : Request) (w : World (Services T))
      → is_malformed host request ≡ false
      → decision_handler d host web request w
        ≡ on_record d host web request (d.item w.cloud.table (parameter request "request_id")) w
  unfolding decision_handler get_record get_item ◌>>=◌
  sound_link request w sound = rw (sound, d.get_result, named_lem d host web request sound) refl

  abbrev answer_in :
      Response → World (Services T) → Result (Raised ApprovalError) Response × World (Services T)
  answer_in a w = (ok a, w)

  answered : {a r : Response} (w : World (Services T)) → some a ≡ some r → answer_in a w ≡ (ok r, w)
  answered {a = a} {r = r} w e = ap (λ x. answer_in x w) (some-injective a r e)

  decided_record :
      (b : Bool) (request : Request) (item : Item) (w : World (Services T)) {r : Response}
      → is_decided item ≡ b
      → (if b then some (was_decided (host.lower (status_text (item "status")))) else none) ≡ some r
      → on_record d host web request (some item) w ≡ (ok r, w)
  unfolding pure
  decided_record true request item w found why = rw found (answered w why)
  decided_record false request item w found why = absurd (none-ne-some _ why)

  refused_link :
      (b : Bool) (o : Option Item) (request : Request) (w : World (Services T)) {r : Response}
      → is_malformed host request ≡ b
      → d.item w.cloud.table (parameter request "request_id") ≡ o
      → refused_by b o ≡ some r
      → decision_handler d host web request w ≡ (ok r, w)
  unfolding pure
  refused_link true o request w bad found why = rw (malformed_link request w bad) (answered w why)
  refused_link false none request w sound found why =
      rw (sound_link request w sound, found) (answered w why)
  refused_link false (some item) request w sound found why =
      rw (sound_link request w sound, found) (decided_record _ request item w refl why)

  refusal_lem :
      (request : Request) (found : Option Item) (r : Response)
      → Refusal host request found r
      → refused_by (is_malformed host request) found ≡ some r
  refusal_lem request found r (unknown_action action acts p q) =
      rw (malformed_action host request action acts p q) refl
  refusal_lem request found r (no_request_id e) = rw (malformed_id host request e) refl
  refusal_lem request found r (no_token e) = rw (malformed_token host request e) refl
  refusal_lem request found r (unknown_request choice h e) =
      rw (sound_choice host request choice h, e) refl
  refusal_lem request found r (decided_request choice h item status e held (inl same)) =
      rw (sound_choice host request choice h, e, held, same) refl
  refusal_lem request found r (decided_request choice h item status e held (inr same)) =
      rw (sound_choice host request choice h, e, held, same) refl

  -- A link whose action, told by the end of its path and else by its query, is neither approve nor
  -- reject, or that has no request_id or no token, is answered 400; one that has them all is
  -- answered 404 where the table has no such request, and 409 with the status where the request is
  -- APPROVED or REJECTED; and nothing changes: no call is made and nothing is written.
  pub decision_handler-refuses :
      (request : Request) (w : World (Services T)) {r : Response}
      → Refusal host request (d.item w.cloud.table (parameter request "request_id")) r
      → decision_handler d host web request w ≡ (ok r, w)
  decision_handler-refuses request w why =
      refused_link _ _ request w refl refl (refusal_lem request _ _ why)

  -- One link after another, whatever each of them answers or raises.
  unfoldable pub follow : List Request → World (Services T) → World (Services T)
  follow [] w = w
  follow (request ∷ rest) w = follow rest (decision_handler d host web request w).1

  settled_link :
      (request : Request) (b : Bool) (w : World (Services T)) {c : Case}
      → is_malformed host request ≡ b
      → is_settled c.request.status ≡ true
      → Stands d (parameter request "request_id") c w.cloud
      → Stands d (parameter request "request_id") c (decision_handler d host web request w).1.cloud
  settled_link request true w bad settled h = rw (malformed_link request w bad) h
  settled_link request false w {c = c} sound settled h =
      subst
        (λ r.
          Stands d (parameter request "request_id") r.1
            (decision_handler d host web request w).1.cloud)
        (contract_settled host web request (host.time w.clock) c settled)
        (decision_handler-refines_contract d host web request w sound h).after

  settled_links :
      (k : String) (links : List Request) (w : World (Services T)) {c : Case}
      → All (λ link. parameter link "request_id" ≡ k) links
      → is_settled c.request.status ≡ true
      → Stands d k c w.cloud
      → Stands d k c (follow links w).cloud
  unfolding follow
  settled_links k [] w about settled h = h
  settled_links k (request ∷ rest) w {c = c} (a, about) settled h =
      settled_links k rest _ about settled (
        subst (λ j. Stands d j c (decision_handler d host web request w).1.cloud) a
          (settled_link request _ w refl settled (subst (λ j. Stands d j c w.cloud) (sym a) h)))

  -- Once a well-formed link for an open request was followed and its call accepted, the request
  -- holds its verdict, approver and comment, and its call is the last, whatever links for the same
  -- request are followed after it.
  pub follow-keeps_first :
      (request : Request) (links : List Request) (w : World (Services T)) {c : Case}
      → is_malformed host request ≡ false
      → All (λ link. parameter link "request_id" ≡ parameter request "request_id") links
      → is_open c.request.status ≡ true
      → web.reply c.callbacks (call_of host web request (host.time w.clock)) ≡ accepted
      → Stands d (parameter request "request_id") c w.cloud
      → Stands d
          (parameter request "request_id")
          (resolved host request (logged (call_of host web request (host.time w.clock)) c))
          (follow (request ∷ links) w).cloud
  unfolding follow
  follow-keeps_first request links w {c = c} sound about waits says h =
      settled_links _ links _ about (verdict_settled host request) (
        subst
          (λ r.
            Stands d (parameter request "request_id") r.1
              (decision_handler d host web request w).1.cloud)
          (contract-accepted host web request (host.time w.clock) c waits says)
          (decision_handler-refines_contract d host web request w sound h).after)

  followed_settled :
      (request : Request) (c : Case) (r : Reply)
      → is_settled c.request.status ≡ true
      → after_reply (thanks host request) (resolved host request c) c r ≡ (refusal r, c)
  followed_settled request c accepted settled = rw (settled_not_open c.request.status settled)
  followed_settled request c timed_out settled = refl
  followed_settled request c does_not_exist settled = refl
  followed_settled request c (refused code) settled = refl

  -- If a decision was recorded between the read of the item and what follows it, a well-formed
  -- link still makes its call but leaves the recorded decision as it is: it answers 409 where the
  -- call is accepted, 410 where the task timed out or does not exist, and raises any other
  -- refusal.
  pub on_record-keeps_decision :
      (request : Request) (stale : Item) (w : World (Services T)) {c : Case}
      → is_malformed host request ≡ false
      → is_decided stale ≡ false
      → is_settled c.request.status ≡ true
      → Stands d (parameter request "request_id") c w.cloud
      → let call = call_of host web request (host.time w.clock) in
        Answers d
          (parameter request "request_id")
          (on_record d host web request (some stale))
          w
          (refusal (web.reply c.callbacks call), logged call c)
  on_record-keeps_decision request stale w {c = c} sound waits settled h = rw waits (
      subst (Answers d (parameter request "request_id") (decide d host web request) w)
        (followed_settled request (logged (call_of host web request (host.time w.clock)) c) _
          settled)
        (followed-Gives d host web request w (named_lem d host web request sound) h))
