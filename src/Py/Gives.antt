-- ===== src/Py/Gives.antt =====
-- How one run of an effect comes out, with a value or an exception alike.
use aws_serverless_patterns.Prelude.{Bool, false, ◌≡◌, refl}
use aws_serverless_patterns.Py.Exec.{
  Result, ok, err, Raised, World, Exec, raise_if, ◌>>=◌, ◌>>◌, catch,
}
use aws_serverless_patterns.Py.Ends.{Ends, Fails}

pub record Gives {E T A S : Type 0} (R : S → T → Type 0) (m : Exec E T A) (w : World T)
    (r : Result (Raised E) A) (s : S) : Type 0 where
  pub result : (m w).0 ≡ r
  pub after : R s (m w).1.cloud

module _ {E T A S : Type 0} {R : S → T → Type 0} {s : S} where
  pub Gives-ok : (m : Exec E T A) (w : World T) {a : A} → Ends R m w a s → Gives R m w (ok a) s
  Gives-ok m w h = record { result = h.returned; after = h.after }

  pub Gives-err :
      (m : Exec E T A) (w : World T) {e : Raised E} → Fails R m w e s → Gives R m w (err e) s
  Gives-err m w h = record { result = h.raised; after = h.after }

module _ {E T A S : Type 0} {R : S → T → Type 0} {s : S} where
  pub Gives-catch_ok :
      (m : Exec E T A) (handler : Raised E → Exec E T A) (w : World T) {a : A}
      → Ends R m w a s
      → Gives R (catch m handler) w (ok a) s
  unfolding catch
  Gives-catch_ok m handler w h = record {
    result = rw h.returned refl;
    after = rw h.returned h.after;
  }

module _ {E T A S : Type 0} {R : S → T → Type 0} {s s' : S} where
  pub Gives-catch_err :
      (m : Exec E T A) (handler : Raised E → Exec E T A) (w : World T) {e : Raised E}
      {r : Result (Raised E) A}
      → Fails R m w e s
      → (R s (m w).1.cloud → Gives R (handler e) (m w).1 r s')
      → Gives R (catch m handler) w r s'
  unfolding catch
  Gives-catch_err m handler w h k =
      let rest = k h.after in
      record { result = rw h.raised rest.result; after = rw h.raised rest.after }

module _ {E T A B S : Type 0} {R : S → T → Type 0} {s s' : S} where
  pub Gives-bind :
      (m : Exec E T A) (f : A → Exec E T B) (w : World T) {a : A} {r : Result (Raised E) B}
      → Ends R m w a s
      → (R s (m w).1.cloud → Gives R (f a) (m w).1 r s')
      → Gives R (m >>= f) w r s'
  unfolding ◌>>=◌
  Gives-bind m f w h k =
      let rest = k h.after in
      record { result = rw h.returned rest.result; after = rw h.returned rest.after }

module _ {E T B S : Type 0} {R : S → T → Type 0} {s : S} where
  pub Gives-bind_if :
      (b : Bool) (x : Raised E) (f : Exec E T B) (w : World T) {r : Result (Raised E) B}
      → b ≡ false
      → Gives R f w r s
      → Gives R (raise_if b x >> f) w r s
  unfolding ◌>>=◌
  Gives-bind_if b x f w e h = record { result = rw e h.result; after = rw e h.after }
