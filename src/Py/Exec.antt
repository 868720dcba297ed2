-- ===== src/Py/Exec.antt =====
-- A handler that calls services and may raise. What was written before a raise stays written, so
-- the state comes back beside the error too.
use aws_serverless_patterns.Prelude.{ℕ, String, Bool, true, false, Option, none, some, suc}

pub data Result (E A : Type 0) : Type 0 where
  ok : A → Result E A
  err : E → Result E A

-- An exception: one of the pattern's own classes, or a built-in one, or boto3's `ClientError`
-- with its code.
pub data Raised (E : Type 0) : Type 0 where
  own : E → Raised E
  type_error attribute_error value_error key_error runtime_error : Raised E
  client_error : String → Raised E

-- The state of the services, and how often the clock was read and an id was drawn.
pub record World (T : Type 0) : Type 0 where
  pub cloud : T
  pub clock : ℕ
  pub ids : ℕ

abbrev pub Exec : Type 0 → Type 0 → Type 0 → Type 0
Exec E T A = World T → Result (Raised E) A × World T

module _ {E T : Type 0} where
  unfoldable pub pure : {A : Type 0} → A → Exec E T A
  pure a w = (ok a, w)

  unfoldable pub raise : {A : Type 0} → Raised E → Exec E T A
  raise e w = (err e, w)

  unfoldable pub lift : {A : Type 0} → Result (Raised E) A → Exec E T A
  lift r w = (r, w)

  -- `if b: raise e`
  unfoldable pub raise_if : Bool → Raised E → Exec E T (Unit {0})
  raise_if true e w = (err e, w)
  raise_if false e w = (ok tt, w)

  -- A value that may be missing: `none` raises.
  unfoldable pub or_raise : {A : Type 0} → Option A → Raised E → Exec E T A
  or_raise none e w = (err e, w)
  or_raise (some a) e w = (ok a, w)

  -- `time.time()` in whole seconds
  unfoldable pub read_clock : (ℕ → ℕ) → Exec E T ℕ
  read_clock time w = (ok (time w.clock), record w { clock = suc w.clock })

  -- `uuid.uuid4()`
  unfoldable pub draw_id : (ℕ → String) → Exec E T String
  draw_id uuid w = (ok (uuid w.ids), record w { ids = suc w.ids })

  abbrev pub continue : {A B : Type 0} → Result (Raised E) A → (A → Exec E T B) → Exec E T B
  continue (ok a) f w = f a w
  continue (err e) f w = (err e, w)

  infixl 5 ◌>>=◌ ◌>>◌
  -- Opening this opens the primitive effects too.
  unfoldable pub ◌>>=◌ : {A B : Type 0} → Exec E T A → (A → Exec E T B) → Exec E T B
  unfolding pure raise lift raise_if or_raise read_clock draw_id
  ◌>>=◌ m f w = let (r, w') = m w in continue r f w'

  abbrev pub ◌>>◌ : {A B : Type 0} → Exec E T A → Exec E T B → Exec E T B
  m >> k = m >>= λ _. k

module _ {E T A : Type 0} where
  abbrev pub recover : Result (Raised E) A → (Raised E → Exec E T A) → Exec E T A
  recover (ok a) handler w = (ok a, w)
  recover (err e) handler w = handler e w

  -- `try: m` with the `except` clauses in one function
  unfoldable pub catch : Exec E T A → (Raised E → Exec E T A) → Exec E T A
  catch m handler w = let (r, w') = m w in recover r handler w'
