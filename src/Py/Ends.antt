-- ===== src/Py/Ends.antt =====
-- How one run of an effect ends: with a value or an exception, in a state that shows the abstract
-- state `s` by the relation `R`.
use aws_serverless_patterns.Prelude.{
  ℕ, String, Bool, true, false, ◌≡◌, refl, if◌then◌else◌, Option, some, ◌⊎◌, inl, inr,
}
use aws_serverless_patterns.Py.Exec.{
  Result, ok, err, Raised, World, Exec, pure, lift, raise_if, read_clock, draw_id, ◌>>=◌, ◌>>◌,
  or_raise,
}

pub record Ends {E T A S : Type 0} (R : S → T → Type 0) (m : Exec E T A) (w : World T) (a : A)
    (s : S) : Type 0 where
  pub returned : (m w).0 ≡ ok a
  pub after : R s (m w).1.cloud

pub record Fails {E T A S : Type 0} (R : S → T → Type 0) (m : Exec E T A) (w : World T)
    (e : Raised E) (s : S) : Type 0 where
  pub raised : (m w).0 ≡ err e
  pub after : R s (m w).1.cloud

module _ {E T A S : Type 0} {R : S → T → Type 0} {s : S} where
  pub Ends-pure : (a : A) (w : World T) → R s w.cloud → Ends R (pure {E = E} a) w a s
  unfolding pure
  Ends-pure a w q = record { returned = refl; after = q }

  pub Ends-lift :
      (r : Result (Raised E) A) (w : World T) {a : A}
      → r ≡ ok a
      → R s w.cloud
      → Ends R (lift r) w a s
  unfolding lift
  Ends-lift r w e q = record { returned = e; after = q }

  pub Fails-lift :
      (r : Result (Raised E) A) (w : World T) {e : Raised E}
      → r ≡ err e
      → R s w.cloud
      → Fails R (lift r) w e s
  unfolding lift
  Fails-lift r w e q = record { raised = e; after = q }

  pub Ends-or_raise :
      (o : Option A) (e : Raised E) (w : World T) {a : A}
      → o ≡ some a
      → R s w.cloud
      → Ends R (or_raise o e) w a s
  unfolding or_raise
  Ends-or_raise o e w p q = record { returned = rw p; after = rw p q }

  pub Ends-if_true :
      (b : Bool) (m n : Exec E T A) (w : World T) {a : A}
      → b ≡ true
      → Ends R m w a s
      → Ends R (if b then m else n) w a s
  Ends-if_true b m n w e h = rw e h

  pub Ends-if_false :
      (b : Bool) (m n : Exec E T A) (w : World T) {a : A}
      → b ≡ false
      → Ends R n w a s
      → Ends R (if b then m else n) w a s
  Ends-if_false b m n w e h = rw e h

module _ {E T S : Type 0} {R : S → T → Type 0} {s : S} where
  pub Ends-raise_if :
      (b : Bool) (e : Raised E) (w : World T)
      → b ≡ false
      → R s w.cloud
      → Ends R (raise_if b e) w tt s
  unfolding raise_if
  Ends-raise_if b e w p q = record { returned = rw p; after = rw p q }

  pub Fails-raise_if :
      (b : Bool) (e : Raised E) (w : World T)
      → b ≡ true
      → R s w.cloud
      → Fails R (raise_if b e) w e s
  unfolding raise_if
  Fails-raise_if b e w p q = record { raised = rw p; after = rw p q }

  pub Ends-draw_id :
      (uuid : ℕ → String) (w : World T)
      → R s w.cloud
      → Ends R (draw_id {E = E} uuid) w (uuid w.ids) s
  unfolding draw_id
  Ends-draw_id uuid w q = record { returned = refl; after = q }

  pub Ends-read_clock :
      (time : ℕ → ℕ) (w : World T)
      → R s w.cloud
      → Ends R (read_clock {E = E} time) w (time w.clock) s
  unfolding read_clock
  Ends-read_clock time w q = record { returned = refl; after = q }

module _ {E T A B S : Type 0} {R : S → T → Type 0} {s s' : S} where
  pub Ends-bind :
      (m : Exec E T A) (f : A → Exec E T B) (w : World T) {a : A} {b : B}
      → Ends R m w a s
      → (R s (m w).1.cloud → Ends R (f a) (m w).1 b s')
      → Ends R (m >>= f) w b s'
  unfolding ◌>>=◌
  Ends-bind m f w h k =
      let rest = k h.after in
      record { returned = rw h.returned rest.returned; after = rw h.returned rest.after }

  pub Fails-bind :
      (m : Exec E T A) (f : A → Exec E T B) (w : World T) {a : A} {e : Raised E}
      → Ends R m w a s
      → (R s (m w).1.cloud → Fails R (f a) (m w).1 e s')
      → Fails R (m >>= f) w e s'
  unfolding ◌>>=◌
  Fails-bind m f w h k =
      let rest = k h.after in
      record { raised = rw h.returned rest.raised; after = rw h.returned rest.after }

module _ {E T A B S : Type 0} {R : S → T → Type 0} {s : S} where
  pub Fails-first :
      (m : Exec E T A) (f : A → Exec E T B) (w : World T) {e : Raised E}
      → Fails R m w e s
      → Fails R (m >>= f) w e s
  unfolding ◌>>=◌
  Fails-first m f w h = record { raised = rw h.raised; after = rw h.raised h.after }

-- The same where nothing is known of the state yet.
module _ {E T A B S : Type 0} {R : S → T → Type 0} {s : S} where
  pub Ends-bind_lift :
      (r : Result (Raised E) A) (f : A → Exec E T B) (w : World T) {a : A} {b : B}
      → r ≡ ok a
      → Ends R (f a) w b s
      → Ends R (lift r >>= f) w b s
  unfolding ◌>>=◌
  Ends-bind_lift r f w e h = record { returned = rw e h.returned; after = rw e h.after }

  pub Fails-bind_lift :
      (r : Result (Raised E) A) (f : A → Exec E T B) (w : World T) {a : A} {e : Raised E}
      → r ≡ ok a
      → Fails R (f a) w e s
      → Fails R (lift r >>= f) w e s
  unfolding ◌>>=◌
  Fails-bind_lift r f w p h = record { raised = rw p h.raised; after = rw p h.after }

module _ {E T B S : Type 0} {R : S → T → Type 0} {s : S} where
  pub Ends-bind_if :
      (b : Bool) (x : Raised E) (f : Exec E T B) (w : World T) {a : B}
      → b ≡ false
      → Ends R f w a s
      → Ends R (raise_if b x >> f) w a s
  unfolding ◌>>=◌
  Ends-bind_if b x f w e h = record { returned = rw e h.returned; after = rw e h.after }

  pub Fails-bind_if :
      (b : Bool) (x : Raised E) (f : Exec E T B) (w : World T) {e : Raised E}
      → b ≡ false
      → Fails R f w e s
      → Fails R (raise_if b x >> f) w e s
  unfolding ◌>>=◌
  Fails-bind_if b x f w p h = record { raised = rw p h.raised; after = rw p h.after }

-- A split on a computed result that keeps the equation.
pub Result-cases :
    {E A : Type 0} (r : Result E A) → ((e : E) × (r ≡ err e)) ⊎ ((a : A) × (r ≡ ok a))
Result-cases (err e) = inl (e, refl)
Result-cases (ok a) = inr (a, refl)

pub bind-eq-ok :
    {E T A B : Type 0} (m : Exec E T A) (f : A → Exec E T B) (w : World T) {a : A} {w' : World T}
    → m w ≡ (ok a, w')
    → (m >>= f) w ≡ f a w'
unfolding ◌>>=◌
bind-eq-ok m f w h = rw h refl

pub ruleset ends_rules =
    (Ends-pure, Ends-lift, Ends-raise_if, Ends-draw_id, Ends-read_clock, Ends-bind)
