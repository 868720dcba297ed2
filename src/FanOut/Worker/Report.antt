-- ===== src/FanOut/Worker/Report.antt =====
-- The batch response, described without the loop: which messages stay in the queue.
use aws_serverless_patterns.Prelude.{
  String, List, [], ◌∷◌, ◌++◌, ◌≡◌, refl, Option, none, some, inl, inr, Bool, false, if◌then◌else◌,
  Bool-cases, Option-cases, All,
}
use aws_serverless_patterns.Py.Value.{Value}
use aws_serverless_patterns.Sqs.{Message, Work, message_ids}
use mathlib.Core.List.{append-nil, append_assoc}
use aws_serverless_patterns.FanOut.Worker.{handler_from, handler, parse_body}

-- The message parses and its work raises.
abbrev pub raised : Work → Message → Option Value → Bool
raised work m none = false
raised work m (some body) = work.raises body m

-- The messages that stay in the queue.
abbrev pub kept : Work → List Message → List Message
kept work [] = []
kept work (m ∷ ms) =
    let rest = kept work ms in if raised work m (parse_body work m) then m ∷ rest else rest

handler_from_lem :
    (work : Work) (ms : List Message) (failures : List String)
    → handler_from work ms failures ≡ failures ++ message_ids (kept work ms)
unfolding handler_from
handler_from_lem work [] failures = rw append-nil
handler_from_lem work (m ∷ ms) failures =
    let longer = handler_from_lem work ms (failures ++ m.message_id ∷ []) in
    let same = handler_from_lem work ms failures in
    elim (Option-cases (parse_body work m)) [
      | inl broken ↦ rw broken same
      | inr (body, parsed) ↦ elim (Bool-cases (work.raises body m)) [
        | inl bad ↦ rw (parsed, bad) (rw append_assoc at longer)
        | inr good ↦ rw (parsed, good) same
      ]
    ]

-- The consumer reports exactly the messages that parse and whose work raises, in their order; one
-- that does not parse is not reported.
pub handler-Reports :
    (work : Work) (ms : List Message) → handler work ms ≡ message_ids (kept work ms)
unfolding handler
handler-Reports work ms = handler_from_lem work ms []

-- A batch of which no message parses is reported as processed in full.
pub handler-unparseable :
    (work : Work) (ms : List Message)
    → All (λ m. parse_body work m ≡ none) ms
    → handler work ms ≡ []
unfolding handler handler_from
handler-unparseable work [] broken = refl
handler-unparseable work (m ∷ ms) broken = rw (broken.0) (handler-unparseable work ms broken.1)
