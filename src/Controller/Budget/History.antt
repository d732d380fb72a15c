-- ===== src/Controller/Budget/History.antt =====
-- How many runs a history of reconciliations creates while the object stays absent.
use artifact_controller.Prelude.{String, ℕ, ◌+◌, ◌≤◌, ◌≡◌, [], sym, subst, arith, none}
use artifact_controller.Prelude.Int.{pos, ◌≤ℤ◌}
use artifact_controller.Prelude.Result.{ok}
use artifact_controller.Toolkit.{Toolkit}
use artifact_controller.Calls.{Trace}
use artifact_controller.Api.ArtifactClass.{ArtifactClass, effective_backoff}
use artifact_controller.Store.{driver_for}
use artifact_controller.Controller.Session.{Cluster, Session}
use artifact_controller.Controller.Request.{handle}
use artifact_controller.Controller.Budget.Ledger.{
  created_runs, lost_runs, used, IsWithin, IsBalanced,
}
use artifact_controller.Controller.Budget.Absence.{IsPlain, SeesNothing, handle-IsBalanced}

-- A new Artifact, before any call.
pub record IsNew {k : Toolkit} (s : Session k) : Type 0 where
  pub quiet : s.trace ≡ []
  pub blameless : s.obj.status.failed_attempts ≡ pos 0
  pub idle : s.obj.status.generator_ref ≡ none

-- The requests for a plain Artifact, one after the other. Between two requests anything may happen
-- that leaves its status as it was and neither creates nor loses a run of its own: an edit of the
-- spec, a restart of the controller, another call.
pub data History {k : Toolkit} (c : Cluster) (s : Session k) : Session k → Type 0 where
  start : History c s s
  handled :
      {t : Session k}
      → History c s t
      → t.obj.deletion_timestamp ≡ none
      → IsPlain t.obj
      → History c s (handle k c t).0
  between :
      {t : Session k} (u : Session k)
      → History c s t
      → u.obj.status ≡ t.obj.status
      → created_runs c u.trace ≡ created_runs c t.trace
      → lost_runs c u.trace ≡ lost_runs c t.trace
      → History c s u

module _ {k : Toolkit} (c : Cluster) (n : ℕ) where
  -- The runs that were created are on the status or were lost, and the status is within the budget.
  record IsCovered (r : Session k) : Type 0 where
    within : IsWithin n r.obj.status
    covered : created_runs c r.trace ≤ used r.obj.status + lost_runs c r.trace

  IsNew-IsCovered : (s : Session k) → IsNew s → IsCovered s
  IsNew-IsCovered s x = record {
    within = record {
      counted = ground (arith, x.blameless);
      room = ground (arith, x.blameless, x.idle);
    };
    covered = ground (arith, x.quiet);
  }

  IsBalanced-IsCovered : (s r : Session k) → IsBalanced c n s r → IsCovered s → IsCovered r
  IsBalanced-IsCovered s r b h = record {
    within = b.within;
    covered = omega (arith, b.balance, h.covered);
  }

  module _ (h : n ≤ 2147483647)
      (limits : (tr : Trace) (name : String) (class : ArtifactClass)
        → c.get_class tr name ≡ ok class
        → (effective_backoff class).max_attempts ≤ℤ pos n)
      (absent : (tr : Trace) (class : ArtifactClass)
        → SeesNothing (driver_for k c.registry tr class)) where
    History-IsCovered : {s r : Session k} → IsNew s → History c s r → IsCovered r
    History-IsCovered {s = s} x start = IsNew-IsCovered s x
    History-IsCovered x (handled {t = t} l d p) =
        let g = History-IsCovered x l in
        IsBalanced-IsCovered t _ (handle-IsBalanced c n h limits absent t d p g.within) g
    History-IsCovered x (between {t = t} u l e a b) =
        let g = History-IsCovered x l in
        record {
          within = subst (IsWithin n) (sym e) g.within;
          covered = ground (arith, e, a, b, g.covered);
        }

    -- While the store shows no object, no retry is asked for and no status update is lost, the
    -- requests for a new Artifact that is managed and has no deleteAfter create at most as many
    -- generator runs as the failure budget of its classes allows, plus one for each run that was
    -- found to be gone or whose deletion was confirmed. The classes, the runs and the spec may
    -- change from one request to the next.
    pub created_runs-le :
        {s r : Session k}
        → IsNew s
        → History c s r
        → created_runs c r.trace ≤ n + lost_runs c r.trace
    created_runs-le {r = r} x l =
        let g = History-IsCovered x l in omega (arith, g.within.room, g.covered)
