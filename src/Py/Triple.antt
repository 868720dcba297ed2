-- ===== src/Py/Triple.antt =====
-- What holds of the value and of the state, where an effect returns: a Hoare triple for each way to
-- build an effect.
use aws_serverless_patterns.Prelude.{◌≡◌, refl, ap}
use aws_serverless_patterns.Py.Exec.{
  Result, ok, err, Raised, World, Exec, pure, lift, ◌>>=◌, continue,
}
use aws_serverless_patterns.Py.Keeps.{Keeps}
use mathlib.Core.Path.{subst}

pub record Triple {E T A : Type 0} (P : T → Type 0) (m : Exec E T A) (Q : A → T → Type 0)
    : Type 0 where
  pub at : (w : World T) (a : A) → P w.cloud → (m w).0 ≡ ok a → Q a (m w).1.cloud

abbrev value_or : {E A : Type 0} → A → Result (Raised E) A → A
value_or default (ok a) = a
value_or default (err e) = default

module _ {E A : Type 0} where
  pub ok-injective : {a b : A} → ◌≡◌ {A = Result (Raised E) A} (ok a) (ok b) → a ≡ b
  ok-injective {a = a} e = ap (value_or a) e

  pub err-ne-ok :
      {C : Type 0} {x : Raised E} {a : A} → ◌≡◌ {A = Result (Raised E) A} (err x) (ok a) → C
  err-ne-ok e = cc

module _ {E T A : Type 0} {P : T → Type 0} {Q : A → T → Type 0} where
  pub Triple-pure : (a : A) → ((t : T) → P t → Q a t) → Triple {E = E} P (pure a) Q
  unfolding pure
  Triple-pure a give = record {
    at = λ w b h e. subst (λ x. Q x w.cloud) (ok-injective e) (give w.cloud h);
  }

  pub Triple-lift :
      (r : Result (Raised E) A) → ((a : A) (t : T) → r ≡ ok a → P t → Q a t) → Triple P (lift r) Q
  unfolding lift
  Triple-lift r give = record { at = λ w a h e. give a w.cloud e h }

module _ {E T A : Type 0} {P : T → Type 0} where
  -- An effect that keeps `P` whatever happens keeps it where it returns.
  pub Triple-keep : (m : Exec E T A) → Keeps P m → Triple P m (λ _. P)
  Triple-keep m keeps = record { at = λ w a h e. keeps.at w h }

module _ {E T A B : Type 0} {R : A → T → Type 0} {Q : B → T → Type 0} where
  continue_by :
      (r : Result (Raised E) A) (f : A → Exec E T B) (w : World T) (b : B)
      → ((a : A) → r ≡ ok a → R a w.cloud)
      → ((a : A) → Triple (R a) (f a) Q)
      → (continue r f w).0 ≡ ok b
      → Q b (continue r f w).1.cloud
  continue_by (ok a) f w b first rest e = (rest a).at w b (first a refl) e
  continue_by (err x) f w b first rest e = err-ne-ok e

module _ {E T A B : Type 0} {P : T → Type 0} {R : A → T → Type 0} {Q : B → T → Type 0} where
  pub Triple-bind :
      (m : Exec E T A) (f : A → Exec E T B)
      → Triple P m R
      → ((a : A) → Triple (R a) (f a) Q)
      → Triple P (m >>= f) Q
  unfolding ◌>>=◌
  Triple-bind m f first rest = record {
    at = λ w b h e.
        let (r, w') = m w in continue_by r f w' b (λ a given. first.at w a h given) rest e;
  }
