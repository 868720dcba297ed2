-- ===== src/Webhook/Tests.antt =====
-- The theorems of this pattern with a digest of one character.
use aws_serverless_patterns.Prelude.{
  String, List, [], ◌∷◌, true, false, none, some, ◌==◌, ◌≡◌, ◌≢◌, ◌+◌, ◌≤◌, refl, if◌then◌else◌,
  ◌↔◌,
}
use aws_serverless_patterns.Py.Exec.{ok, err, type_error, World, ◌>>=◌}
use aws_serverless_patterns.Py.Text.{strip, remove_prefix, is_ascii, strip_left, strip_right}
use aws_serverless_patterns.Py.Value.{str, is_text}
use aws_serverless_patterns.Py.Sample.{sample_world}
use aws_serverless_patterns.Webhook.Verify.{
  Bytes, Hmac, verify, compute_signature, is_supported, compare_digest,
}
use aws_serverless_patterns.Webhook.Verify.Accepts.{
  verify-accepts_iff, verify-compute_signature, Matches, candidate_of,
}
use aws_serverless_patterns.Webhook.Handler.{
  Consumer, WebhookMessage, Environment, handle, signing_key,
}
use aws_serverless_patterns.Webhook.Handler.Report.{handle-reports_batch}
use aws_serverless_patterns.Webhook.Handler.Key.{signing_key-cached}
use aws_serverless_patterns.Webhook.Handler.Forged.{IsForeign, handle-keeps_foreign}

-- "a" for the empty body and "b" for any other.
abbrev digest : Bytes → String
digest [] = "a"
digest (x ∷ xs) = "b"

digest_ascii : (m : Bytes) → is_ascii (digest m) ≡ true
unfolding is_ascii
digest_ascii [] = refl
digest_ascii (x ∷ xs) = refl

abbrev toy_hmac : Hmac
toy_hmac = record {
  hexdigest = λ a k m. digest m;
  lower = λ s. s;
  hexdigest_lower = λ a k m. refl;
  hexdigest_ascii = λ a k m. digest_ascii m;
}

verify-accepts_iff_example :
    (verify toy_hmac [] [] " s=a" "sha256" "s=" ≡ ok true)
    ↔ ((" s=a" == "") ≡ false)
      × (is_supported "sha256" ≡ true)
      × Matches toy_hmac [] [] "sha256" (candidate_of toy_hmac [] [] "sha256" " s=a" "s=")
verify-accepts_iff_example = verify-accepts_iff toy_hmac [] [] "sha256" " s=a" "s="

verify-compute_signature_example :
    (verify toy_hmac [] [] " s=a" "sha256" "s=" ≡ ok true)
    × ((other : Bytes)
        → "a" ≢ digest other
        → verify toy_hmac [] other " s=a" "sha256" "s=" ≡ ok false)
unfolding compute_signature strip strip_left strip_right
verify-compute_signature_example =
    verify-compute_signature toy_hmac [] [] "sha256" "s=" "a" " s=a" refl refl refl

abbrev toy_consumer : Consumer
toy_consumer = record {
  hmac = toy_hmac;
  encode = λ s. if s == "" then [] else 1 ∷ [];
  json_loads = λ s. if s == "{" then none else some (str s);
  get_secret_value = λ n. ok (record { secret_string = some "k"; secret_binary = none });
  process_event = λ source payload. if is_text (some payload) "down" then err type_error else ok tt;
  signature_algorithm = "sha256";
  signature_prefix = "";
}

abbrev signed : String → String → String → WebhookMessage
signed id signature body = record {
  message_id = id;
  attributes = λ name. if name == "signature" then some (some signature) else none;
  body = some body;
}

abbrev fresh : World Environment
fresh = sample_world (record { cached_key = none; fetches = 0; processed = [] })

abbrev warm : World Environment
warm = record fresh { cloud = record { cached_key = some (1 ∷ []); fetches = 1; processed = [] } }

abbrev sample_batch : List WebhookMessage
sample_batch = signed "m1" "b" "up" ∷ signed "m2" "x" "up" ∷ signed "m3" "b" "down" ∷ []

handle-reports_batch_example :
    ((handle toy_consumer sample_batch fresh).0 ≡ ok ("m3" ∷ []))
    × ((handle toy_consumer sample_batch fresh).1.cloud.processed
        ≡ ("unknown", str "up") ∷ ("unknown", str "down") ∷ [])
unfolding signing_key ◌>>=◌ verify remove_prefix compute_signature compare_digest is_ascii strip
    strip_right strip_left
handle-reports_batch_example =
    handle-reports_batch toy_consumer (1 ∷ []) sample_batch fresh warm refl

signing_key-cached_example :
    ((signing_key toy_consumer fresh).1.cloud.cached_key ≡ some (1 ∷ []))
    × ((signing_key toy_consumer fresh).1.cloud.fetches ≤ 0 + 1)
    × (signing_key toy_consumer (signing_key toy_consumer fresh).1
        ≡ (ok (1 ∷ []), (signing_key toy_consumer fresh).1))
unfolding signing_key ◌>>=◌
signing_key-cached_example = signing_key-cached toy_consumer (1 ∷ []) fresh refl

IsForeign-message : IsForeign toy_consumer (signed "m4" "é" "up")
unfolding remove_prefix strip strip_left strip_right is_ascii
IsForeign-message = record { candidate = "é"; given = refl; found = refl; foreign = refl }

handle-keeps_foreign_example :
    (handle toy_consumer (signed "m4" "é" "up" ∷ []) fresh).0 ≡ ok ("m4" ∷ [])
unfolding signing_key ◌>>=◌
handle-keeps_foreign_example =
    handle-keeps_foreign toy_consumer (1 ∷ []) refl (signed "m4" "é" "up" ∷ []) fresh warm
      (IsForeign-message, tt) refl
