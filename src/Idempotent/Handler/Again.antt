-- ===== src/Idempotent/Handler/Again.antt =====
-- patterns/idempotent-processor/src/handler.py: `record_handler` on two deliveries with one key.
use aws_serverless_patterns.Prelude.{
  some, none, ap, String, ◌≡◌, ◌∙◌, eq_refl, refl, ℕ, ◌++◌, ◌∷◌, [], ltb, if◌then◌else◌, true,
  false, Bool-cases, inl, inr, ◌==◌, List, Option, arith, Bool,
}
use aws_serverless_patterns.Idempotent.Powertools.{Powertools, Delivery, Ledger, NoError}
use aws_serverless_patterns.Py.Host.{Host, str_of, subscript, dict_get}
use aws_serverless_patterns.Idempotent.Key.{Reader, payload_of, idempotency_key, key_or}
use aws_serverless_patterns.Idempotent.Handler.{record_handler, process_payload}
use aws_serverless_patterns.Py.Value.{
  Value, Fields, get, set, str, obj, field, end, is_falsy, truthy, get-set,
}
use aws_serverless_patterns.Py.Exec.{◌>>=◌, World, ok, Result, Raised, pure}

-- The key of a body: its own key where it has one, else its id, else the digest of the body.
pub data Chooses (host : Host) (reader : Reader) (raw : String) (fs : Fields) (k : String)
    : Type 0 where
  own_key :
      (v : Value)
      → get "idempotency_key" fs ≡ some v
      → truthy v ≡ true
      → k ≡ str_of host v
      → Chooses host reader raw fs k
  own_id :
      (v : Value)
      → is_falsy (get "idempotency_key" fs) ≡ true
      → get "id" fs ≡ some v
      → truthy v ≡ true
      → k ≡ str_of host v
      → Chooses host reader raw fs k
  digest :
      is_falsy (get "idempotency_key" fs) ≡ true
      → is_falsy (get "id" fs) ≡ true
      → k ≡ reader.sha256 raw
      → Chooses host reader raw fs k

-- A delivery whose body is an object with this key.
pub record Carries (host : Host) (reader : Reader) (m : Delivery) (fs : Fields) (k : String)
    : Type 0 where
  pub present : (m.body == "") ≡ false
  pub parsed : reader.json_loads m.body ≡ some (obj fs)
  pub chosen : Chooses host reader m.body fs k

-- What the work is done on, and what it returns.
abbrev pub worked_on : Fields → String → Fields
worked_on fs k = set "idempotency_key" (str k) fs

abbrev pub processed : String → Fields
processed k = field "status" (str "processed") (field "idempotency_key" (str k) end)

module _ (host : Host) (reader : Reader) where
  key_or_falsy :
      (o : Option Value) (rest : Result (Raised NoError) String)
      → is_falsy o ≡ true
      → key_or host o rest ≡ rest
  key_or_falsy none rest e = refl
  key_or_falsy (some v) rest e = elim (Bool-cases (truthy v)) [
    | inl real ↦ ground arith
    | inr empty ↦ rw empty refl
  ]

  chosen_lem :
      (raw : String) (fs : Fields) (k : String)
      → Chooses host reader raw fs k
      → idempotency_key host reader raw (obj fs) ≡ ok k
  unfolding idempotency_key dict_get
  chosen_lem raw fs k (own_key v held real same) = rw (held, real, same) refl
  chosen_lem raw fs k (own_id v lacks held real same) =
      rw (key_or_falsy _ _ lacks, held, real, same) refl
  chosen_lem raw fs k (digest lacks nameless same) =
      rw (key_or_falsy _ _ lacks, key_or_falsy _ _ nameless, same) refl

  payload_lem :
      (m : Delivery) (fs : Fields) (k : String)
      → Carries host reader m fs k
      → payload_of host reader m ≡ ok (k, worked_on fs k)
  unfolding payload_of
  payload_lem m fs k h = rw (h.present, h.parsed, chosen_lem m.body fs k h.chosen) refl

keyed_lem : (fs : Fields) (k : String) → get "idempotency_key" (worked_on fs k) ≡ some (str k)
keyed_lem fs k = rw (get-set "idempotency_key" "idempotency_key" (str k) fs) refl

module _ {S : Type 0} (p : Powertools S) (host : Host) (reader : Reader) where
  process_payload_lem :
      (payload : Fields) (k : String) (w : World (Ledger S))
      → get "idempotency_key" payload ≡ some (str k)
      → process_payload p host reader payload w ≡ (
        ok (processed k),
        record w { cloud = record w.cloud { performed = w.cloud.performed ++ payload ∷ [] } },
      )
  unfolding process_payload ◌>>=◌ subscript pure
  process_payload_lem payload k w e = rw (e, subscript) refl

  -- Some seconds later.
  abbrev pub later : ℕ → World (Ledger S) → World (Ledger S)
  later seconds w = record w { cloud = record w.cloud { store = p.elapse seconds w.cloud.store } }

  -- A delivery returns this and leaves this list of work done.
  pub record Works (m : Delivery) (w : World (Ledger S)) (k : String) (done : List Fields)
      : Type 0 where
    pub returned : (record_handler p host reader m w).0 ≡ ok (processed k)
    pub performed : (record_handler p host reader m w).1.cloud.performed ≡ done

  module _ (m : Delivery) (fs : Fields) (k : String) (w : World (Ledger S))
      (h : Carries host reader m fs k) where
    runs : p.stored w.cloud.store k ≡ none → Works m w k (w.cloud.performed ++ worked_on fs k ∷ [])
    unfolding record_handler ◌>>=◌
    runs new =
        let f = process_payload p host reader in
        let keyed = keyed_lem fs k in
        let run = process_payload_lem (worked_on fs k) k w keyed in
        let asked = payload_lem host reader m fs k h in
        record {
          returned =
              rw asked (p.idempotent-returns f (worked_on fs k) k w keyed new (ap (λ x. x.0) run));
          performed = rw asked (
              p.performed-idempotent f (worked_on fs k) k w keyed new
              ∙ ap (λ x. x.1.cloud.performed) run);
        }

    replays :
        p.stored w.cloud.store k ≡ some (processed k)
        → record_handler p host reader m w ≡ (ok (processed k), w)
    unfolding record_handler ◌>>=◌
    replays old =
        rw (payload_lem host reader m fs k h)
          (p.idempotent-replays _ (worked_on fs k) k w (keyed_lem fs k) old)

    -- After it the result is stored for the window.
    stays :
        (seconds : ℕ)
        → p.stored w.cloud.store k ≡ none
        → p.stored (later seconds (record_handler p host reader m w).1).cloud.store k
          ≡ (if ltb seconds p.window then some (processed k) else none)
    unfolding record_handler ◌>>=◌
    stays seconds new =
        let f = process_payload p host reader in
        let keyed = keyed_lem fs k in
        let run = ap (λ x. x.0) (process_payload_lem (worked_on fs k) k w keyed) in
        rw
          (
            payload_lem host reader m fs k h,
            p.stored-elapse,
            p.left-idempotent f (worked_on fs k) k w keyed new run,
            p.stored-idempotent f (worked_on fs k) k w keyed new run k,
            eq_refl,
          )
          refl

  -- What a delivery does to a world where its key's result is still stored, or is not.
  abbrev pub Repeats : Bool → Delivery → Fields → String → World (Ledger S) → Type 0
  Repeats true m fs k w = record_handler p host reader m w ≡ (ok (processed k), w)
  Repeats false m fs k w = Works m w k (w.cloud.performed ++ worked_on fs k ∷ [])

  repeats :
      (b : Bool) (m : Delivery) (fs : Fields) (k : String) (w : World (Ledger S))
      → Carries host reader m fs k
      → p.stored w.cloud.store k ≡ (if b then some (processed k) else none)
      → Repeats b m fs k w
  repeats true m fs k w h old = replays m fs k w h old
  repeats false m fs k w h new = runs m fs k w h new

  -- For two deliveries whose bodies are objects with one key, which is the own idempotency_key of
  -- the body if it is truthy, else its id if that is, and else the digest of the body, and a table
  -- that holds no unexpired result for the key: the first delivery does the work on its body with
  -- the key in it and returns its result; the second, some seconds later and with nothing handled
  -- in between, returns the same result and changes nothing if these seconds are fewer than the
  -- window of Powertools, and else does the work again on its own body.
  pub record_handler-again :
      (m m' : Delivery) (fs fs' : Fields) (k : String) (seconds : ℕ) (w : World (Ledger S))
      → Carries host reader m fs k
      → Carries host reader m' fs' k
      → p.stored w.cloud.store k ≡ none
      → Works m w k (w.cloud.performed ++ worked_on fs k ∷ [])
        × Repeats
            (ltb seconds p.window)
            m'
            fs'
            k
            (later seconds (record_handler p host reader m w).1)
  record_handler-again m m' fs fs' k seconds w h h' new = (
    runs m fs k w h new,
    repeats (ltb seconds p.window) m' fs' k _ h' (stays m fs k w h seconds new),
  )
