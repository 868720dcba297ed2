-- ===== src/Idempotent/Powertools.antt =====
-- Powertools for AWS Lambda, which the pattern calls and this repository does not hold: the decorator
-- `idempotent_function` over its table, and `process_partial_response`. The decorator has its
-- documented laws, while no other execution has the key in progress and the table answers: a result
-- is stored for a window of seconds, after which it is as if it had never been stored.

use aws_serverless_patterns.Prelude.{
  ℕ, ltb, if◌then◌else◌, List, some, none, String, Option, ◌≡◌, ◌==◌,
}
use aws_serverless_patterns.Py.Value.{Fields, get, str}
use aws_serverless_patterns.Py.Exec.{Exec, World, ok}

-- `stored` is the part of Powertools' table; `performed` has the payloads that the business logic
-- was run on.
pub record Ledger (S : Type 0) : Type 0 where
  pub store : S
  pub performed : List Fields

-- The decorated function has no exceptions of its own.
pub data NoError : Type 0 where

pub record Delivery : Type 0 where
  pub message_id : String
  pub body : String

abbrev pub Handled : Type 0 → Type 0 → Type 0
Handled S A = Exec NoError (Ledger S) A

pub record Powertools (S : Type 0) : Type 1 where
  -- The result stored for a key, if it has not expired, and the seconds until it does.
  pub stored : S → String → Option Fields
  pub left : S → String → ℕ
  -- `expires_after_seconds`
  pub window : ℕ
  -- The table some seconds later, in which nothing was handled.
  pub elapse : ℕ → S → S
  pub stored-elapse :
      (seconds : ℕ) (s : S) (k : String)
      → stored (elapse seconds s) k ≡ (if ltb seconds (left s k) then stored s k else none)
  pub idempotent : (Fields → Handled S Fields) → Fields → Handled S Fields
  pub process_partial_response :
      (Delivery → Handled S Fields) → List Delivery → Handled S (List String)
  pub idempotent-replays :
      (f : Fields → Handled S Fields) (payload : Fields) (k : String) (w : World (Ledger S))
      {r : Fields}
      → get "idempotency_key" payload ≡ some (str k)
      → stored w.cloud.store k ≡ some r
      → idempotent f payload w ≡ (ok r, w)
  pub idempotent-returns :
      (f : Fields → Handled S Fields) (payload : Fields) (k : String) (w : World (Ledger S))
      {r : Fields}
      → get "idempotency_key" payload ≡ some (str k)
      → stored w.cloud.store k ≡ none
      → (f payload w).0 ≡ ok r
      → (idempotent f payload w).0 ≡ ok r
  pub performed-idempotent :
      (f : Fields → Handled S Fields) (payload : Fields) (k : String) (w : World (Ledger S))
      → get "idempotency_key" payload ≡ some (str k)
      → stored w.cloud.store k ≡ none
      → (idempotent f payload w).1.cloud.performed ≡ (f payload w).1.cloud.performed
  pub stored-idempotent :
      (f : Fields → Handled S Fields) (payload : Fields) (k : String) (w : World (Ledger S))
      {r : Fields}
      → get "idempotency_key" payload ≡ some (str k)
      → stored w.cloud.store k ≡ none
      → (f payload w).0 ≡ ok r
      → (j : String)
      → stored (idempotent f payload w).1.cloud.store j
        ≡ (if k == j then some r else stored w.cloud.store j)
  pub left-idempotent :
      (f : Fields → Handled S Fields) (payload : Fields) (k : String) (w : World (Ledger S))
      {r : Fields}
      → get "idempotency_key" payload ≡ some (str k)
      → stored w.cloud.store k ≡ none
      → (f payload w).0 ≡ ok r
      → left (idempotent f payload w).1.cloud.store k ≡ window
