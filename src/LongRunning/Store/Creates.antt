-- ===== src/LongRunning/Store/Creates.antt =====
-- What `create` writes: a submitted job, whatever was there before.
use aws_serverless_patterns.Prelude.{
  ℕ, suc, String, Bool, false, none, some, ◌≡◌, refl, ◌==◌, eq_refl, true, Option, Bool-cases, inl,
  inr,
}
use aws_serverless_patterns.Prelude.Int.{ℤ, pos, ◌+ℤ◌, ltb_ℤ}
use aws_serverless_patterns.Py.Value.{str, float_free, Value, float_free_fields, set, get}
use aws_serverless_patterns.Py.Host.{Host}
use aws_serverless_patterns.Py.Exec.{World, ◌>>=◌}
use aws_serverless_patterns.Py.Ends.{Ends}
use aws_serverless_patterns.Dynamo.{Dynamo}
use aws_serverless_patterns.Dynamo.Client.{put_item}
use aws_serverless_patterns.LongRunning.View.{Job, Shows}
use aws_serverless_patterns.LongRunning.Store.{create, new_item}
use aws_serverless_patterns.LongRunning.Errors.{JobError}

abbrev pub submitted : ℤ → Bool → Job
submitted succeed_after fails = record {
  status = "SUBMITTED";
  attempts = 0;
  progress = pos 0;
  succeed_after = succeed_after;
  fails = fails;
  token = none;
  signoff = none;
}

-- `create` needs no item: whatever was there is replaced.
module _ {T : Type 0} (d : Dynamo T) (host : Host) (k : String) (named : (k == "") ≡ false) (n : ℤ)
    (fails : Bool) (payload : Value) (plain : float_free payload ≡ true) where
  put_new-Ends :
      (created updated : ℕ) (expires : Option ℤ) (w : World T)
      → Ends {E = JobError}
          (Shows d k)
          (put_item d (str k) (new_item (str k) n fails payload created updated expires))
          w
          tt
          (submitted n fails)
  unfolding put_item float_free float_free_fields new_item set get
  put_new-Ends created updated none w = record {
    returned = rw (d.put_result, plain, named);
    after = record {
      item = λ a. get a (new_item (str k) n fails payload created updated none);
      found = rw (d.item-put, plain, named, eq_refl);
      status_is = refl;
      attempts_is = refl;
      progress_is = refl;
      succeed_after_is = refl;
      fails_is = refl;
      token_is = refl;
      signoff_is = refl;
    };
  }
  put_new-Ends created updated (some t) w = record {
    returned = rw (d.put_result, plain, named);
    after = record {
      item = λ a. get a (new_item (str k) n fails payload created updated (some t));
      found = rw (d.item-put, plain, named, eq_refl);
      status_is = refl;
      attempts_is = refl;
      progress_is = refl;
      succeed_after_is = refl;
      fails_is = refl;
      token_is = refl;
      signoff_is = refl;
    };
  }

  pub create-Ends :
      (ttl_seconds : Option ℤ) (w : World T)
      → Ends
          (Shows d k)
          (create d host (str k) n fails payload ttl_seconds)
          w
          tt
          (submitted n fails)
  unfolding create ◌>>=◌
  create-Ends none w =
      let new =
        put_new-Ends (host.time w.clock) (host.time (suc w.clock)) none
          (record w { clock = suc (suc w.clock) }) in
      record { returned = new.returned; after = new.after }
  create-Ends (some t) w = elim (Bool-cases (ltb_ℤ (pos 0) t)) [
    | inl lives ↦
        let new =
          put_new-Ends (host.time w.clock) (host.time (suc w.clock))
            (some (pos (host.time (suc (suc w.clock))) +ℤ t))
            (record w { clock = suc (suc (suc w.clock)) }) in
        record { returned = rw lives new.returned; after = rw lives new.after }
    | inr forever ↦
        let new =
          put_new-Ends (host.time w.clock) (host.time (suc w.clock)) none
            (record w { clock = suc (suc w.clock) }) in
        record { returned = rw forever new.returned; after = rw forever new.after }
  ]
