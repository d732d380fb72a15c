-- ===== src/Controller/Budget/Ledger.antt =====
-- The runs that a trace of calls creates and loses, against the failure budget.
use artifact_controller.Prelude.{
  ℕ, ◌+◌, ◌≤◌, ◌≡◌, ◌⊎◌, Option, none, some, [], ◌∷◌, is_none, if◌then◌else◌,
}
use artifact_controller.Prelude.Int.{pos, pos_part, inc32}
use artifact_controller.Prelude.Result.{Error, Result, ok, err, is_not_found}
use artifact_controller.Toolkit.{Toolkit}
use artifact_controller.Calls.{Call, Trace}
use artifact_controller.Api.Json.{Object}
use artifact_controller.Api.Artifact.{ArtifactStatus}
use artifact_controller.Controller.Session.{Cluster, Session}

abbrev one_if_ok : Result Object → ℕ
one_if_ok (ok run) = 1
one_if_ok (err e) = 0

abbrev one_if_gone : Result Object → ℕ
one_if_gone (ok run) = 0
one_if_gone (err e) = if is_not_found e.kind then 1 else 0

abbrev one_if_deleted : Option Error → ℕ
one_if_deleted none = 1
one_if_deleted (some e) = if is_not_found e.kind then 1 else 0

module _ (c : Cluster) where
  -- The creations of a run that the API server accepted.
  abbrev pub created_runs : Trace → ℕ
  created_runs [] = 0
  created_runs (Call.create_run run ∷ tr) = one_if_ok (c.create_run tr run) + created_runs tr
  created_runs (_ ∷ tr) = created_runs tr

  -- The runs that were found to be gone, and the confirmed deletions of a run.
  abbrev pub lost_runs : Trace → ℕ
  lost_runs [] = 0
  lost_runs (Call.get_run ref ∷ tr) = one_if_gone (c.get_run tr ref) + lost_runs tr
  lost_runs (Call.delete_run ref ∷ tr) = one_if_deleted (c.delete_run tr ref) + lost_runs tr
  lost_runs (_ ∷ tr) = lost_runs tr

-- What the status stands for: the failures, and the run in flight.
abbrev pub used : ArtifactStatus → ℕ
used st = pos_part st.failed_attempts + (if is_none st.generator_ref then 0 else 1)

-- The count of failures is a natural number, and with the run in flight it is within the budget.
pub record IsWithin (n : ℕ) (st : ArtifactStatus) : Type 0 where
  pub counted : st.failed_attempts ≡ pos (pos_part st.failed_attempts)
  pub room : used st ≤ n

module _ {k : Toolkit} (c : Cluster) where
  -- Every new run is on the status or was lost.
  pub record IsBalanced (n : ℕ) (s r : Session k) : Type 0 where
    pub within : IsWithin n r.obj.status
    pub balance :
        created_runs c r.trace + used s.obj.status + lost_runs c s.trace
        ≤ created_runs c s.trace + used r.obj.status + lost_runs c r.trace

  -- An evaluation creates nothing; it keeps the run or charges it.
  pub record Spends (s r : Session k) : Type 0 where
    pub creates : created_runs c r.trace ≡ created_runs c s.trace
    pub loses : lost_runs c s.trace ≤ lost_runs c r.trace
    pub fate :
        ((r.obj.status.failed_attempts ≡ s.obj.status.failed_attempts)
          × (r.obj.status.generator_ref ≡ s.obj.status.generator_ref))
        ⊎ ((r.obj.status.failed_attempts ≡ inc32 s.obj.status.failed_attempts)
            × (r.obj.status.generator_ref ≡ none))
