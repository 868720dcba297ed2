-- ===== src/Webhook/Verify.antt =====
-- patterns/webhook-ingest/src/verify_signature.py
pub mod Accepts
use aws_serverless_patterns.Prelude.{
  ℕ, String, List, Bool, true, false, ◌&&◌, ◌||◌, Option, none, some, ◌==◌, ◌≡◌, if◌then◌else◌,
}
use aws_serverless_patterns.Py.Exec.{Result, ok, err, Raised, own, type_error}
use aws_serverless_patterns.Py.Fallible.{◌>>=◌, ◌>>◌, guard_not}
use aws_serverless_patterns.Py.Text.{strip, remove_prefix, is_ascii}

abbrev pub Bytes : Type 0
Bytes = List ℕ

-- `SignatureError`, the marker `_Unverified`, and `json.JSONDecodeError`, which the handler tells
-- from all others.
pub data WebhookError : Type 0 where
  signature_error unverified json_decode_error : WebhookError

-- `hmac.new(secret, body, digestmod).hexdigest()` by the algorithm's name, and `str.lower`. A digest
-- is lowercase ASCII without blanks.
pub record Hmac : Type 0 where
  pub hexdigest : String → Bytes → Bytes → String
  pub lower : String → String
  pub hexdigest_lower : (a : String) (k m : Bytes) → lower (hexdigest a k m) ≡ hexdigest a k m
  pub hexdigest_ascii : (a : String) (k m : Bytes) → is_ascii (hexdigest a k m) ≡ true

abbrev pub is_supported : String → Bool
is_supported algorithm = algorithm == "sha1" || algorithm == "sha256" || algorithm == "sha512"

-- `hmac.compare_digest` of two texts, which refuses a text that is not ASCII.
unfoldable pub compare_digest : String → String → Result (Raised WebhookError) Bool
compare_digest a b = if is_ascii a && is_ascii b then ok (a == b) else err type_error

module _ (h : Hmac) where
  unfoldable pub compute_signature : Bytes → Bytes → String → Result (Raised WebhookError) String
  compute_signature secret body algorithm =
      if is_supported algorithm
      then ok (h.hexdigest algorithm secret body)
      else err (own signature_error)

  abbrev pub compare_candidate :
      Bytes → Bytes → String → Option String → Result (Raised WebhookError) Bool
  compare_candidate secret body algorithm none = ok false
  compare_candidate secret body algorithm (some candidate) = do
    expected ← compute_signature secret body algorithm
    compare_digest (h.lower candidate) (h.lower expected)

  -- An empty prefix is removed from every text, and leaves it whole.
  unfoldable pub verify :
      Bytes → Bytes → String → String → String → Result (Raised WebhookError) Bool
  verify secret body provided_signature algorithm prefix = do
    guard_not (provided_signature == "") (own signature_error)
    compare_candidate secret body algorithm (remove_prefix prefix (strip provided_signature))
