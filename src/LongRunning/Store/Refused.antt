-- ===== src/LongRunning/Store/Refused.antt =====
-- `create` with a payload that holds a float, which boto3 refuses.
use aws_serverless_patterns.Prelude.{
  ℕ, suc, String, Bool, false, none, some, ◌≡◌, Option, Bool-cases, inl, inr,
}
use aws_serverless_patterns.Prelude.Int.{ℤ, pos, ◌+ℤ◌, ltb_ℤ}
use aws_serverless_patterns.Py.Value.{str, float_free, Value, float_free_fields, set}
use aws_serverless_patterns.Py.Host.{Host}
use aws_serverless_patterns.Py.Exec.{World, type_error, ◌>>=◌}
use aws_serverless_patterns.Py.Ends.{Fails}
use aws_serverless_patterns.Dynamo.{Dynamo}
use aws_serverless_patterns.Dynamo.Client.{put_item}
use aws_serverless_patterns.Dynamo.Frame.{HoldsItem}
use aws_serverless_patterns.LongRunning.Store.{create, new_item}
use aws_serverless_patterns.LongRunning.Errors.{JobError}

module _ {T : Type 0} (d : Dynamo T) (host : Host) (k j : String) (n : ℤ) (fails : Bool)
    (payload : Value) (floats : float_free payload ≡ false) where
  put_new-Fails :
      (created updated : ℕ) (expires : Option ℤ) (w : World T)
      → Fails {E = JobError}
          (HoldsItem d j)
          (put_item d (str k) (new_item (str k) n fails payload created updated expires))
          w
          type_error
          (d.item w.cloud j)
  unfolding put_item float_free float_free_fields new_item set
  put_new-Fails created updated none w = record {
    raised = rw (d.put_result, floats);
    after = rw (d.item-put, floats);
  }
  put_new-Fails created updated (some t) w = record {
    raised = rw (d.put_result, floats);
    after = rw (d.item-put, floats);
  }

  pub create-Fails :
      (ttl_seconds : Option ℤ) (w : World T)
      → Fails
          (HoldsItem d j)
          (create d host (str k) n fails payload ttl_seconds)
          w
          type_error
          (d.item w.cloud j)
  unfolding create ◌>>=◌
  create-Fails none w =
      let new =
        put_new-Fails (host.time w.clock) (host.time (suc w.clock)) none
          (record w { clock = suc (suc w.clock) }) in
      record { raised = new.raised; after = new.after }
  create-Fails (some t) w = elim (Bool-cases (ltb_ℤ (pos 0) t)) [
    | inl lives ↦
        let new =
          put_new-Fails (host.time w.clock) (host.time (suc w.clock))
            (some (pos (host.time (suc (suc w.clock))) +ℤ t))
            (record w { clock = suc (suc (suc w.clock)) }) in
        record { raised = rw lives new.raised; after = rw lives new.after }
    | inr forever ↦
        let new =
          put_new-Fails (host.time w.clock) (host.time (suc w.clock)) none
            (record w { clock = suc (suc w.clock) }) in
        record { raised = rw forever new.raised; after = rw forever new.after }
  ]
