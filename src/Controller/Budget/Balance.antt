-- ===== src/Controller/Budget/Balance.antt =====
-- A reconciliation of an absent object keeps the ledger of runs balanced.
use artifact_controller.Prelude.{ℕ, ◌+◌, ◌≤◌, ◌<◌, ◌≡◌, inl, inr, arith, Option, none, some}
use artifact_controller.Prelude.Int.{ℤ, pos, pos_part, ◌≤ℤ◌, ◌+ℤ◌, inc32, inc32_lem}
use artifact_controller.Toolkit.{Toolkit, Input}
use artifact_controller.Api.Json.{Object}
use artifact_controller.Api.Artifact.{GeneratorReference}
use artifact_controller.Api.ArtifactClass.{ArtifactClass, GeneratorSpec, Backoff, effective_backoff}
use artifact_controller.Calls.{Call}
use artifact_controller.Controller.Session.{Cluster, Session, call}
use artifact_controller.Controller.Run.{delete_abandoned_run, ensure_generator_watch}
use artifact_controller.Controller.Create.{create_run, submit_run, adopt, create_refused, created}
use artifact_controller.Controller.Missing.{
  reconcile_missing, note_absence, without_generator, drive_generator, budget_exhausted,
  answer_in_flight, start_attempt, backing_off,
}
use artifact_controller.Controller.Budget.Ledger.{IsWithin, IsBalanced, Spends}
use artifact_controller.Prelude.Result.Bind.{Result-cases}
use artifact_controller.Controller.Budget.Spending.{evaluate_run-Spends}

-- The next failure, where the count is below an int32 limit.
inc32-pos : (a : ℤ) (f n : ℕ) → a ≡ pos f → f < n → n ≤ 2147483647 → inc32 a ≡ pos (f + 1)
unfolding ◌+ℤ◌
inc32-pos a f n e l h = rw e (ground (arith, inc32_lem (pos f)))

module _ {k : Toolkit} (c : Cluster) (n : ℕ) where
  Spends-IsBalanced :
      (s r : Session k) (ref : GeneratorReference)
      → n ≤ 2147483647
      → IsWithin n s.obj.status
      → s.obj.status.generator_ref ≡ some ref
      → Spends c s r
      → IsBalanced c n s r
  Spends-IsBalanced s r ref h w e x = elim x.fate [
    | inl (f, g) ↦ record {
      within = record {
        counted = ground (arith, f, w.counted);
        room = ground (arith, f, g, w.room);
      };
      balance = ground (arith, f, g, x.creates, x.loses);
    }
    | inr (f, g) ↦
        let q =
          inc32-pos s.obj.status.failed_attempts (pos_part s.obj.status.failed_attempts) n w.counted
            (ground (arith, e, w.room)) h in
        record {
          within = record {
            counted = ground (arith, f, q);
            room = ground (arith, f, g, q, e, w.room);
          };
          balance = ground (arith, f, g, q, e, x.creates, x.loses);
        }
  ]

  -- The run is on the status, or nothing changed.
  submit_run-IsBalanced :
      (in_ : Input) (run : Object) (s : Session k)
      → IsWithin n s.obj.status
      → s.obj.status.generator_ref ≡ none
      → pos_part s.obj.status.failed_attempts < n
      → IsBalanced c n s (submit_run k c in_ run s).0
  unfolding submit_run adopt create_refused created
  submit_run-IsBalanced in_ run s w e l = ground arith

  create_run-IsBalanced :
      (g : GeneratorSpec) (in_ : Input) (s : Session k)
      → IsWithin n s.obj.status
      → s.obj.status.generator_ref ≡ none
      → pos_part s.obj.status.failed_attempts < n
      → IsBalanced c n s (create_run k c g in_ s).0
  unfolding create_run ensure_generator_watch
  create_run-IsBalanced g in_ s w e l = grind (arith, submit_run-IsBalanced)

  start_attempt-IsBalanced :
      (g : GeneratorSpec) (in_ : Input) (now : ℤ) (next : Option ℤ) (s : Session k)
      → IsWithin n s.obj.status
      → s.obj.status.generator_ref ≡ none
      → pos_part s.obj.status.failed_attempts < n
      → IsBalanced c n s (start_attempt k c g in_ now next s).0
  unfolding start_attempt backing_off
  start_attempt-IsBalanced g in_ now none s w e l = create_run-IsBalanced g in_ s w e l
  start_attempt-IsBalanced g in_ now (some next) s w e l = grind (arith, create_run-IsBalanced)

  -- The session after the run in flight was asked for.
  abbrev asked : GeneratorReference → Session k → Session k
  asked ref s = call (Call.get_run ref) s

  asked-IsBalanced :
      (ref : GeneratorReference) (s r : Session k)
      → IsBalanced c n (asked ref s) r
      → IsBalanced c n s r
  asked-IsBalanced ref s r h = record { within = h.within; balance = ground (arith, h.balance) }

  in_flight-IsBalanced :
      (class : ArtifactClass) (g : GeneratorSpec) (ref : GeneratorReference) (now : ℤ) (b : Backoff)
      (s : Session k)
      → n ≤ 2147483647
      → IsWithin n s.obj.status
      → s.obj.status.generator_ref ≡ some ref
      → IsBalanced c n s
          (answer_in_flight k c class g (c.get_run s.trace ref) now b (asked ref s)).0
  unfolding answer_in_flight
  in_flight-IsBalanced class g ref now b s h w e = elim (Result-cases (c.get_run s.trace ref)) [
    | inl (run, q) ↦ rw q (
        asked-IsBalanced ref s _ (
          Spends-IsBalanced (asked ref s) _ ref h w e
            (evaluate_run-Spends c class g run now b (asked ref s))))
    | inr (x, q) ↦ ground (arith, q, w)
  ]

  drive_generator-IsBalanced :
      (class : ArtifactClass) (g : GeneratorSpec) (in_ : Input) (now : ℤ) (s : Session k)
      → n ≤ 2147483647
      → (effective_backoff class).max_attempts ≤ℤ pos n
      → IsWithin n s.obj.status
      → IsBalanced c n s (drive_generator k c class g in_ now s).0
  unfolding drive_generator budget_exhausted
  drive_generator-IsBalanced class g in_ now s h m w =
      grind (arith, in_flight-IsBalanced, start_attempt-IsBalanced, w.counted)

  without_generator-IsBalanced :
      (class : ArtifactClass) (in_ : Input) (s : Session k)
      → IsWithin n s.obj.status
      → IsBalanced c n s (without_generator k c class in_ s).0
  unfolding without_generator delete_abandoned_run
  without_generator-IsBalanced class in_ s w = ground arith

  pub reconcile_missing-IsBalanced :
      (class : ArtifactClass) (in_ : Input) (now : ℤ) (s : Session k)
      → n ≤ 2147483647
      → (effective_backoff class).max_attempts ≤ℤ pos n
      → IsWithin n s.obj.status
      → IsBalanced c n s (reconcile_missing k c class in_ now s).0
  unfolding reconcile_missing note_absence
  reconcile_missing-IsBalanced class in_ now s h m w =
      grind (arith, without_generator-IsBalanced, drive_generator-IsBalanced)
