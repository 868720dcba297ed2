-- ===== src/Webhook/Handler/Key.antt =====
-- The signing key is fetched once in an execution environment, also when the secret is rotated.
use aws_serverless_patterns.Prelude.{◌+◌, ◌≤◌, Option, none, some, ◌≡◌, refl, inl, inr, arith}
use aws_serverless_patterns.Py.Exec.{ok, World, ◌>>=◌, pure}
use aws_serverless_patterns.Webhook.Verify.{Bytes}
use aws_serverless_patterns.Webhook.Handler.{
  Consumer, Environment, signing_key, secret_bytes, key_from,
}
use aws_serverless_patterns.Py.Ends.{Result-cases}

-- What a call that gives `key` leaves behind.
abbrev Kept : Consumer → Bytes → World Environment → World Environment → Type 0
Kept c key w w' =
    (w'.cloud.cached_key ≡ some key)
    × (w'.cloud.fetches ≤ w.cloud.fetches + 1)
    × (signing_key c w' ≡ (ok key, w'))

module _ (c : Consumer) (key : Bytes) (w : World Environment) where
  from_cache :
      (o : Option Bytes)
      → w.cloud.cached_key ≡ o
      → (key_from c o w).0 ≡ ok key
      → Kept c key w (key_from c o w).1
  unfolding signing_key ◌>>=◌ pure
  from_cache (some old) cached given =
      let same : old ≡ key = cc in (rw (cached, same) refl, omega arith, rw (cached, same) refl)
  from_cache none cached given = elim (Result-cases (c.get_secret_value w.cloud.fetches)) [
    | inl (e, failed) ↦ let raised = rw failed at given in cc
    | inr (secret, fetched) ↦ elim (Result-cases (secret_bytes c secret)) [
      | inl (e, failed) ↦ let raised = rw (fetched, failed) at given in cc
      | inr (new, decoded) ↦
          let same : new ≡ key = (let returned = rw (fetched, decoded) at given in cc) in
          rw (fetched, decoded, same) (refl, omega arith, refl)
    ]
  ]

  -- A key that signing_key gives is cached, at the cost of one fetch at most; from then on it
  -- gives that key and fetches nothing, whatever Secrets Manager would answer.
  pub signing_key-cached :
      (signing_key c w).0 ≡ ok key
      → ((signing_key c w).1.cloud.cached_key ≡ some key)
        × ((signing_key c w).1.cloud.fetches ≤ w.cloud.fetches + 1)
        × (signing_key c (signing_key c w).1 ≡ (ok key, (signing_key c w).1))
  unfolding signing_key
  signing_key-cached given = from_cache w.cloud.cached_key refl given
