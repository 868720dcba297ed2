-- ===== src/Py/Fallible.antt =====
-- Python code that calls no service and may raise: a chain of results.
use aws_serverless_patterns.Prelude.{◌≡◌, refl, arith, Bool, true, false, Option, none, some}
use aws_serverless_patterns.Py.Exec.{Result, ok, err, Raised}

module _ {E : Type 0} where
  infixl 5 ◌>>=◌ ◌>>◌
  abbrev pub ◌>>=◌ :
      {A B : Type 0} → Result (Raised E) A → (A → Result (Raised E) B) → Result (Raised E) B
  ok a >>= f = f a
  err e >>= f = err e

  abbrev pub ◌>>◌ : {A B : Type 0} → Result (Raised E) A → Result (Raised E) B → Result (Raised E) B
  m >> k = m >>= λ _. k

  -- `if b: raise e`
  abbrev pub guard_not : Bool → Raised E → Result (Raised E) (Unit {0})
  guard_not true e = err e
  guard_not false e = ok tt

  -- A value that may be missing: `none` raises.
  abbrev pub some_or : {A : Type 0} → Option A → Raised E → Result (Raised E) A
  some_or none e = err e
  some_or (some a) e = ok a

-- What a chain that returns went through.
pub bind-ok :
    {E A B : Type 0} (r : Result (Raised E) A) (f : A → Result (Raised E) B) {b : B}
    → (r >>= f) ≡ ok b
    → (a : A) × (r ≡ ok a) × (f a ≡ ok b)
bind-ok (ok a) f e = (a, refl, e)
bind-ok (err x) f e = ground arith
