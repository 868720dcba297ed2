-- ===== src/Approval/Decision/Records.antt =====
-- The calls of `decision_handler`, as steps of the request's case.
use aws_serverless_patterns.Dynamo.{Dynamo, Update}
use aws_serverless_patterns.Py.Host.{Host}
use aws_serverless_patterns.Prelude.{String, List, ◌≡◌, ◌++◌, ◌∷◌, [], ap, ◌==◌, false, true}
use aws_serverless_patterns.Approval.Store.{record_decision, translate}
use aws_serverless_patterns.Dynamo.Client.{update_item}
use aws_serverless_patterns.Approval.Services.{
  send, Callback, Reply, ApprovalError, Services, on_table, outcome_of, accepted, already_decided,
}
use aws_serverless_patterns.Py.Exec.{Raised, World, client_error, err, own}
use aws_serverless_patterns.Py.Value.{Value, str}
use aws_serverless_patterns.Py.Keeps.{
  Keeps, Keeps-if, Keeps-raise, Keeps-bind, Keeps-read_clock, Keeps-catch, Keeps-pure,
}
use aws_serverless_patterns.Approval.View.{Case, Stands, decided, Shows-on_table, Shows-table}
use aws_serverless_patterns.Py.Ends.{Fails, Ends}
use aws_serverless_patterns.Approval.Store.Decides.{
  is_open, record_decision-Fails, record_decision-Ends,
}

module _ {T : Type 0} (d : Dynamo T) (host : Host) (k : String) where
  pub send-Ends :
      (reply : List Callback → Callback → Reply) (call : Callback) (w : World (Services T))
      {c : Case}
      → reply c.callbacks call ≡ accepted
      → Stands d k c w.cloud
      → Ends (Stands d k) (send reply call) w tt (record c { callbacks = c.callbacks ++ call ∷ [] })
  unfolding send
  send-Ends reply call w says h = record {
    returned = rw (h.logged, says);
    after = record { shown = h.shown; logged = ap (λ l. l ++ call ∷ []) h.logged };
  }

  pub send-Fails :
      (reply : List Callback → Callback → Reply) (call : Callback) (w : World (Services T))
      {c : Case} {e : Raised ApprovalError}
      → outcome_of (reply c.callbacks call) ≡ err e
      → Stands d k c w.cloud
      → Fails (Stands d k) (send reply call) w e (record c { callbacks = c.callbacks ++ call ∷ [] })
  unfolding send
  send-Fails reply call w says h = record {
    raised = rw h.logged says;
    after = record { shown = h.shown; logged = ap (λ l. l ++ call ∷ []) h.logged };
  }

  update_item-Keeps :
      (P : List Callback → Type 0) (n : String) (key : Value) (u : Update)
      → Keeps (λ s. P s.callbacks) (update_item {E = ApprovalError} (on_table d) n key u)
  unfolding update_item
  update_item-Keeps P n key u = record { at = λ w h. h }

  translate-Keeps :
      (P : List Callback → Type 0) (e : Raised ApprovalError)
      → Keeps (λ s. P s.callbacks) (translate (on_table d) host e)
  translate-Keeps P (client_error code) = Keeps-if _ _ _ (Keeps-raise _) (Keeps-raise _)
  translate-Keeps P e = Keeps-raise e

  record_decision-Keeps :
      (P : List Callback → Type 0) (key : Value) (decision approver comment : String)
      → Keeps (λ s. P s.callbacks) (record_decision (on_table d) host key decision approver comment)
  unfolding record_decision
  record_decision-Keeps P key decision approver comment =
      Keeps-bind _ _ (Keeps-read_clock _) (λ decided.
        Keeps-bind _ _ (Keeps-read_clock _) (λ updated.
          Keeps-bind _ _ (Keeps-catch _ _ (update_item-Keeps P _ _ _) (translate-Keeps P))
            (λ item. Keeps-pure tt)))

  module _ (named : (k == "") ≡ false) (w : World (Services T)) {c : Case}
      (h : Stands d k c w.cloud) (decision approver comment : String) where
    logged_after :
        (record_decision (on_table d) host (str k) decision approver comment w).1.cloud.callbacks
        ≡ c.callbacks
    logged_after =
        (record_decision-Keeps (λ l. l ≡ c.callbacks) (str k) decision approver comment).at w
          h.logged

    pub decision-Ends :
        is_open c.request.status ≡ true
        → Ends
            (Stands d k)
            (record_decision (on_table d) host (str k) decision approver comment)
            w
            tt
            (record c { request = decided decision approver comment c.request })
    decision-Ends waits =
        let run =
          record_decision-Ends (on_table d) host k named w (Shows-on_table w.cloud h.shown) decision
            approver comment waits in
        record {
          returned = run.returned;
          after = record { shown = Shows-table _ run.after; logged = logged_after };
        }

    pub decision-Fails :
        is_open c.request.status ≡ false
        → Fails
            (Stands d k)
            (record_decision (on_table d) host (str k) decision approver comment)
            w
            (own already_decided)
            c
    decision-Fails settled =
        let run =
          record_decision-Fails (on_table d) host k named w (Shows-on_table w.cloud h.shown)
            decision approver comment settled in
        record {
          raised = run.raised;
          after = record { shown = Shows-table _ run.after; logged = logged_after };
        }
