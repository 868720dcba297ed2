-- ===== src/Py/Keeps.antt =====
-- Invariants of effects, one rule for each way to build an effect.
use aws_serverless_patterns.Prelude.{
  ℕ, String, Bool, true, false, ◌≡◌, refl, if◌then◌else◌, Option, none, some,
}
use aws_serverless_patterns.Py.Exec.{
  Result, ok, err, Raised, World, Exec, pure, lift, raise_if, read_clock, draw_id, ◌>>=◌, catch,
  recover, raise, or_raise,
}

-- `m` keeps `P`, whether it returns or raises.
pub record Keeps {E T A : Type 0} (P : T → Type 0) (m : Exec E T A) : Type 0 where
  pub at : (w : World T) → P w.cloud → P (m w).1.cloud

module _ {E T A : Type 0} {P : T → Type 0} where
  pub Keeps-pure : (a : A) → Keeps P (pure {E = E} a)
  unfolding pure
  Keeps-pure a = record { at = λ w h. h }

  pub Keeps-lift : (r : Result (Raised E) A) → Keeps P (lift r)
  unfolding lift
  Keeps-lift r = record { at = λ w h. h }

  pub Keeps-or_raise : (o : Option A) (e : Raised E) → Keeps P (or_raise o e)
  unfolding or_raise
  Keeps-or_raise none e = record { at = λ w h. h }
  Keeps-or_raise (some a) e = record { at = λ w h. h }

  pub Keeps-if :
      (b : Bool) (m n : Exec E T A) → Keeps P m → Keeps P n → Keeps P (if b then m else n)
  Keeps-if true m n km kn = km
  Keeps-if false m n km kn = kn

module _ {E T : Type 0} {P : T → Type 0} where
  pub Keeps-raise_if : (b : Bool) (e : Raised E) → Keeps P (raise_if b e)
  unfolding raise_if
  Keeps-raise_if true e = record { at = λ w h. h }
  Keeps-raise_if false e = record { at = λ w h. h }

  pub Keeps-read_clock : (time : ℕ → ℕ) → Keeps P (read_clock {E = E} time)
  unfolding read_clock
  Keeps-read_clock time = record { at = λ w h. h }

  pub Keeps-draw_id : (uuid : ℕ → String) → Keeps P (draw_id {E = E} uuid)
  unfolding draw_id
  Keeps-draw_id uuid = record { at = λ w h. h }

module _ {E T A B : Type 0} {P : T → Type 0} where
  -- The rest may use that `r` did not raise.
  pub Keeps-bind-lift :
      (r : Result (Raised E) A) (next : A → Exec E T B)
      → ((a : A) → r ≡ ok a → Keeps P (next a))
      → Keeps P (lift r >>= next)
  unfolding ◌>>=◌
  Keeps-bind-lift (ok a) next rest = rest a refl
  Keeps-bind-lift (err e) next rest = record { at = λ w h. h }

  continue-Keeps :
      (r : Result (Raised E) A) (next : A → Exec E T B)
      → ((a : A) → Keeps P (next a))
      → Keeps P (lift r >>= next)
  continue-Keeps r next rest = Keeps-bind-lift r next (λ a _. rest a)

  pub Keeps-bind :
      (run : Exec E T A) (next : A → Exec E T B)
      → Keeps P run
      → ((a : A) → Keeps P (next a))
      → Keeps P (run >>= next)
  unfolding ◌>>=◌
  Keeps-bind run next first rest = record {
    at = λ w h. let (r, w') = run w in (continue-Keeps r next rest).at w' (first.at w h);
  }

module _ {E T A : Type 0} {P : T → Type 0} where
  pub Keeps-raise : (e : Raised E) → Keeps P (raise {A = A} e)
  unfolding raise
  Keeps-raise e = record { at = λ w h. h }

  recover-Keeps :
      (r : Result (Raised E) A) (handler : Raised E → Exec E T A) (w : World T)
      → ((e : Raised E) → Keeps P (handler e))
      → P w.cloud
      → P (recover r handler w).1.cloud
  recover-Keeps (ok a) handler w rest h = h
  recover-Keeps (err e) handler w rest h = (rest e).at w h

  pub Keeps-catch :
      (run : Exec E T A) (handler : Raised E → Exec E T A)
      → Keeps P run
      → ((e : Raised E) → Keeps P (handler e))
      → Keeps P (catch run handler)
  unfolding catch
  Keeps-catch run handler first rest = record {
    at = λ w h. let (r, w') = run w in recover-Keeps r handler w' rest (first.at w h);
  }

pub ruleset keeps_rules =
    (Keeps-pure, Keeps-lift, Keeps-if, Keeps-raise_if, Keeps-read_clock, Keeps-draw_id, Keeps-bind)
