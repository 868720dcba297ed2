-- ===== src/Idempotent/Sample.antt =====
-- Powertools with a store that is a function, whose results stay for an hour, and batches that run
-- in their order.
use aws_serverless_patterns.Prelude.{
  ℕ, ltb, Bool-cases, inl, inr, sym, Bool, true, false, eq_refl, ◌-◌, some, none, [], ◌∷◌,
  if◌then◌else◌, Option, String, ◌∙◌, ◌≡◌, List, ◌==◌, ap, arith, refl,
}
use mathlib.Core.Option.{none-ne-some, some-injective}
use aws_serverless_patterns.Idempotent.Powertools.{Delivery, Ledger, Powertools, Handled, NoError}
use aws_serverless_patterns.Py.Value.{Fields, Value, get, str}
use aws_serverless_patterns.Py.Exec.{Result, ok, Raised, err, World}

abbrev pub Store : Type 0
Store = String → Option (Fields × ℕ)

abbrev text_of : Option Value → String
text_of (some (str s)) = s
text_of v = ""

abbrev key_of : Fields → String
key_of payload = text_of (get "idempotency_key" payload)

abbrev Outcome : Type 0
Outcome = Result (Raised NoError) Fields × World (Ledger Store)

abbrev answer_in : World (Ledger Store) → Fields → Outcome
answer_in w r = (ok r, w)

abbrev saved : String → Store → Outcome → Outcome
saved k before (ok r, w) = (
  ok r,
  record w { cloud = record w.cloud { store = λ j. if k == j then some (r, 3600) else before j } },
)
saved k before (err e, w) = (err e, w)

abbrev once :
    (Fields → Handled Store Fields) → Fields → String → Option (Fields × ℕ) → Handled Store Fields
once f payload k (some held) w = (ok held.0, w)
once f payload k none w = saved k w.cloud.store (f payload w)

abbrev idempotent : (Fields → Handled Store Fields) → Fields → Handled Store Fields
idempotent f payload w = once f payload (key_of payload) (w.cloud.store (key_of payload)) w

abbrev in_order : (Delivery → Handled Store Fields) → List Delivery → Handled Store (List String)
in_order f [] w = (ok [], w)
in_order f (m ∷ batch) w = in_order f batch (f m w).1

abbrev kept_for : ℕ → Option (Fields × ℕ) → Option (Fields × ℕ)
kept_for seconds none = none
kept_for seconds (some (r, left)) = if ltb seconds left then some (r, left - seconds) else none

abbrev result_in : Option (Fields × ℕ) → Option Fields
result_in none = none
result_in (some held) = some held.0

abbrev left_in : Option (Fields × ℕ) → ℕ
left_in none = 0
left_in (some held) = held.1

pub result_in_kept :
    (seconds : ℕ) (o : Option (Fields × ℕ))
    → result_in (kept_for seconds o) ≡ (if ltb seconds (left_in o) then result_in o else none)
result_in_kept seconds none = ground arith
result_in_kept seconds (some (r, left)) = elim (Bool-cases (ltb seconds left)) [
  | inl soon ↦ rw soon refl
  | inr late ↦ rw late refl
]

pub empty_lem : (o : Option (Fields × ℕ)) → result_in o ≡ none → o ≡ none
empty_lem none e = refl
empty_lem (some held) e = absurd (none-ne-some _ (sym e))

pub saved_result : (k : String) (before : Store) (x : Outcome) → (saved k before x).0 ≡ x.0
saved_result k before (ok r, w) = refl
saved_result k before (err e, w) = refl

pub saved_performed :
    (k : String) (before : Store) (x : Outcome)
    → (saved k before x).1.cloud.performed ≡ x.1.cloud.performed
saved_performed k before (ok r, w) = refl
saved_performed k before (err e, w) = refl

abbrev result_or : Fields → Result (Raised NoError) Fields → Fields
result_or default (ok r) = r
result_or default (err e) = default

pub saved_store :
    (k : String) (before : Store) (x : Outcome) {r : Fields}
    → x.0 ≡ ok r
    → (j : String)
    → (saved k before x).1.cloud.store j ≡ (if k == j then some (r, 3600) else before j)
saved_store k before (ok a, w) {r = r} e j =
    ap
      (λ (y : Result (Raised NoError) Fields).
        if k == j then some (result_or r y, 3600) else before j)
      e
saved_store k before (err x, w) e j = ground arith

pub result_if :
    (b : Bool) (r : Fields) (o : Option (Fields × ℕ))
    → result_in (if b then some (r, 3600) else o) ≡ (if b then some r else result_in o)
result_if true r o = refl
result_if false r o = refl

pub replayed :
    (f : Fields → Handled Store Fields) (payload : Fields) (k : String) (w : World (Ledger Store))
    (o : Option (Fields × ℕ)) {r : Fields}
    → result_in o ≡ some r
    → once f payload k o w ≡ (ok r, w)
replayed f payload k w none old = absurd (none-ne-some _ old)
replayed f payload k w (some held) old = ap (λ x. answer_in w x) (some-injective held.0 _ old)

abbrev pub sample_powertools : Powertools Store
sample_powertools = record {
  stored = λ s k. result_in (s k);
  left = λ s k. left_in (s k);
  window = 3600;
  elapse = λ seconds s k. kept_for seconds (s k);
  stored-elapse = λ seconds s k. result_in_kept seconds (s k);
  idempotent = idempotent;
  process_partial_response = in_order;
  idempotent-replays =
      λ f payload k w {r} keyed old. rw keyed (replayed f payload k w (w.cloud.store k) old);
  idempotent-returns = λ f payload k w keyed new done.
      rw (keyed, empty_lem _ new) (saved_result k w.cloud.store (f payload w) ∙ done);
  performed-idempotent = λ f payload k w keyed new.
      rw (keyed, empty_lem _ new) (saved_performed k w.cloud.store (f payload w));
  stored-idempotent = λ f payload k w {r} keyed new done j.
      rw (keyed, empty_lem _ new, saved_store k w.cloud.store (f payload w) done j)
        (result_if (k == j) r (w.cloud.store j));
  left-idempotent = λ f payload k w keyed new done.
      rw (keyed, empty_lem _ new, saved_store k w.cloud.store (f payload w) done k, eq_refl) refl;
}
