-- ===== src/LongRunning/Store/Refines.antt =====
-- Every method of the store does to the item what the abstract job says.
use aws_serverless_patterns.Prelude.{ℕ, suc, String, false, some, ◌≡◌, refl, ◌==◌, eq_refl, arith}
use aws_serverless_patterns.Prelude.Int.{ℤ, pos, ◌+ℤ◌}
use aws_serverless_patterns.Py.Value.{int, str, float_free}
use aws_serverless_patterns.Py.Host.{Host}
use aws_serverless_patterns.Py.Exec.{World, ◌>>=◌}
use aws_serverless_patterns.Py.Ends.{Ends}
use aws_serverless_patterns.Dynamo.{Dynamo, add_to-next_count, next_count, set_attribute}
use aws_serverless_patterns.Dynamo.Client.{update_item, get_item}
use aws_serverless_patterns.LongRunning.View.{Job, Shows}
use aws_serverless_patterns.LongRunning.Store.{
  update_progress, set_status, attach_token, get_record, increment_attempt, time_value,
}

next_attempt : (n : ℕ) → next_count (some (int (pos n))) ≡ some (pos (suc n))
unfolding ◌+ℤ◌
next_attempt n = ground arith

module _ {T : Type 0} (d : Dynamo T) (host : Host) (k : String) (named : (k == "") ≡ false)
    (w : World T) {job : Job} where
  pub increment_attempt-Ends :
      Shows d k job w.cloud
      → Ends
          (Shows d k)
          (increment_attempt d host (str k))
          w
          (pos (suc job.attempts))
          (record job { attempts = suc job.attempts })
  unfolding increment_attempt update_item ◌>>=◌ float_free
  increment_attempt-Ends h =
      let added = add_to-next_count (some (int (pos job.attempts))) _ (next_attempt job.attempts) in
      record {
        returned = rw (d.update_result, named, h.found, h.attempts_is, added);
        after =
            rw (d.update_result, named, h.found, h.attempts_is, added)
              (record {
                item =
                    set_attribute "updated_at" (time_value (host.time w.clock))
                      (set_attribute "attempts" (int (pos (suc job.attempts))) h.item);
                found = rw (d.item-update, named, h.found, h.attempts_is, added, eq_refl);
                status_is = h.status_is;
                attempts_is = refl;
                progress_is = h.progress_is;
                succeed_after_is = h.succeed_after_is;
                fails_is = h.fails_is;
                token_is = h.token_is;
                signoff_is = h.signoff_is;
              });
      }

  pub update_progress-Ends :
      (status : String) (progress : ℤ)
      → Shows d k job w.cloud
      → Ends
          (Shows d k)
          (update_progress d host (str k) status progress)
          w
          tt
          (record job { status = status; progress = progress })
  unfolding update_progress update_item ◌>>=◌ float_free
  update_progress-Ends status progress h = record {
    returned = rw (d.update_result, named);
    after =
        rw (d.update_result, named)
          (record {
            item = set_attribute "updated_at" (time_value (host.time w.clock)) (
                set_attribute "progress" (int progress)
                  (set_attribute "status" (str status) h.item));
            found = rw (d.item-update, named, h.found, eq_refl);
            status_is = refl;
            attempts_is = h.attempts_is;
            progress_is = refl;
            succeed_after_is = h.succeed_after_is;
            fails_is = h.fails_is;
            token_is = h.token_is;
            signoff_is = h.signoff_is;
          });
  }

  pub set_status-Ends :
      (status : String)
      → Shows d k job w.cloud
      → Ends (Shows d k) (set_status d host (str k) status) w tt (record job { status = status })
  unfolding set_status update_item ◌>>=◌ float_free
  set_status-Ends status h = record {
    returned = rw (d.update_result, named);
    after =
        rw (d.update_result, named)
          (record {
            item =
                set_attribute "updated_at" (time_value (host.time w.clock))
                  (set_attribute "status" (str status) h.item);
            found = rw (d.item-update, named, h.found, eq_refl);
            status_is = refl;
            attempts_is = h.attempts_is;
            progress_is = h.progress_is;
            succeed_after_is = h.succeed_after_is;
            fails_is = h.fails_is;
            token_is = h.token_is;
            signoff_is = h.signoff_is;
          });
  }

  pub attach_token-Ends :
      (token : String)
      → Shows d k job w.cloud
      → Ends
          (Shows d k)
          (attach_token d host (str k) (str token))
          w
          tt
          (record job { token = some (str token); signoff = some (str "PENDING") })
  unfolding attach_token update_item ◌>>=◌ float_free
  attach_token-Ends token h = record {
    returned = rw (d.update_result, named);
    after =
        rw (d.update_result, named)
          (record {
            item = set_attribute "updated_at" (time_value (host.time w.clock)) (
                set_attribute "signoff_status" (str "PENDING")
                  (set_attribute "task_token" (str token) h.item));
            found = rw (d.item-update, named, h.found, eq_refl);
            status_is = h.status_is;
            attempts_is = h.attempts_is;
            progress_is = h.progress_is;
            succeed_after_is = h.succeed_after_is;
            fails_is = h.fails_is;
            token_is = refl;
            signoff_is = refl;
          });
  }

  pub get_record-Ends :
      (h : Shows d k job w.cloud) → Ends (Shows d k) (get_record d host (str k)) w (some h.item) job
  unfolding get_record get_item
  get_record-Ends h = record { returned = rw (d.get_result, named, h.found); after = h }
