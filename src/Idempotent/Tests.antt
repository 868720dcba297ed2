-- ===== src/Idempotent/Tests.antt =====
-- The theorems of this pattern on two records that have one key.
use aws_serverless_patterns.Prelude.{
  some, none, [], ◌∷◌, if◌then◌else◌, String, ◌==◌, ◌≡◌, refl, true,
}
use aws_serverless_patterns.Idempotent.Key.{Reader, idempotency_key}
use aws_serverless_patterns.Py.Exec.{World, ok}
use aws_serverless_patterns.Idempotent.Powertools.{Delivery, Ledger}
use aws_serverless_patterns.Py.Value.{Fields, obj, field, get, str, end}
use aws_serverless_patterns.Idempotent.Sample.{sample_powertools, Store}
use aws_serverless_patterns.Py.Host.{dict_get}
use aws_serverless_patterns.Idempotent.Handler.{record_handler}
use aws_serverless_patterns.Py.Sample.{sample_world, sample_host}
use aws_serverless_patterns.Idempotent.Handler.Again.{
  Carries, own_key, own_id, Works, Repeats, later, worked_on, record_handler-again,
}

-- The first record has a key and an id, the others only an id.
abbrev sample_fields : String → Fields
sample_fields text =
    if text == "a"
    then field "id" (str "o9") (field "idempotency_key" (str "o1") end)
    else field "id" (str "o1") (field "text" (str text) end)

abbrev sample_reader : Reader
sample_reader = record {
  json_loads = λ s. if s == "{" then none else some (obj (sample_fields s));
  sha256 = λ s. s;
}

abbrev sample_delivery : String → String → Delivery
sample_delivery id body = record { message_id = id; body = body }

abbrev start : World (Ledger Store)
start = sample_world (record { store = λ k. none; performed = [] })

key_first_test : idempotency_key sample_host sample_reader "a" (obj (sample_fields "a")) ≡ ok "o1"
unfolding idempotency_key dict_get get
key_first_test = refl

id_second_test : idempotency_key sample_host sample_reader "b" (obj (sample_fields "b")) ≡ ok "o1"
unfolding idempotency_key dict_get get
id_second_test = refl

digest_last_test : idempotency_key sample_host sample_reader "b" (obj end) ≡ ok "b"
unfolding idempotency_key dict_get get
digest_last_test = refl

first-Carries :
    Carries sample_host sample_reader (sample_delivery "m1" "a") (sample_fields "a") "o1"
unfolding get
first-Carries = record { present = refl; parsed = refl; chosen = own_key (str "o1") refl refl refl }

second-Carries :
    Carries sample_host sample_reader (sample_delivery "m2" "b") (sample_fields "b") "o1"
unfolding get
second-Carries = record {
  present = refl;
  parsed = refl;
  chosen = own_id (str "o1") refl refl refl refl;
}

-- A minute later the result is still stored.
record_handler-again_example :
    Works sample_powertools sample_host sample_reader
      (sample_delivery "m1" "a")
      start
      "o1"
      (worked_on (sample_fields "a") "o1" ∷ [])
    × Repeats sample_powertools sample_host sample_reader true
        (sample_delivery "m2" "b")
        (sample_fields "b")
        "o1"
        (later sample_powertools sample_host sample_reader 60
          (record_handler sample_powertools sample_host sample_reader
            (sample_delivery "m1" "a")
            start).1)
record_handler-again_example =
    record_handler-again sample_powertools sample_host sample_reader (sample_delivery "m1" "a")
      (sample_delivery "m2" "b") (sample_fields "a") (sample_fields "b") "o1" 60 start first-Carries
      second-Carries refl
