-- ===== src/Controller/Budget/Absence.antt =====
-- A request for an Artifact whose object stays absent keeps the ledger of runs balanced.
use artifact_controller.Prelude.{
  inl, inr, eq_iff, Bool, String, ℕ, ◌≤◌, ◌≡◌, ◌⊎◌, false, refl, arith, none,
}
use artifact_controller.Prelude.Maps.{get_text}
use artifact_controller.Prelude.Int.{ℤ, pos, ◌≤ℤ◌}
use artifact_controller.Prelude.Result.{Result, ok, err}
use artifact_controller.Prelude.Result.Bind.{Result-cases}
use artifact_controller.Toolkit.{Toolkit, Input}
use artifact_controller.Calls.{Call, Trace}
use artifact_controller.Api.Artifact.{Artifact, observe_only, retry_annotation}
use artifact_controller.Api.ArtifactClass.{ArtifactClass, effective_backoff}
use artifact_controller.Store.{Observation, Driver, driver_for}
use artifact_controller.Controller.Session.{Cluster, Session, call}
use artifact_controller.Controller.Reconcile.{
  note_generation, suspended, honor_retry, cancel_for_observe, expire_ttl, dispatch, observe_store,
  with_driver, with_key, with_class, reconcile_active, reconcile,
}
use artifact_controller.Controller.Request.{handle}
use artifact_controller.Controller.Budget.Ledger.{IsWithin, IsBalanced}
use artifact_controller.Controller.Budget.Balance.{reconcile_missing-IsBalanced}

-- An Artifact that is managed, has no new retry token and no deleteAfter.
pub record IsPlain (obj : Artifact) : Type 0 where
  pub managed : observe_only obj ≡ false
  pub lasting : obj.spec.delete_after ≡ none
  pub no_retry :
      (get_text retry_annotation obj.annotations ≡ "")
      ⊎ (get_text retry_annotation obj.annotations ≡ obj.status.retry_token)

abbrev exists_in : Result Observation → Bool
exists_in (err e) = false
exists_in (ok obs) = obs.exists

-- A driver of the class answers, if at all, that the object is absent.
abbrev pub SeesNothing : Result Driver → Type 0
SeesNothing (err e) = Unit
SeesNothing (ok driver) = (tr : Trace) (key : String) → exists_in (driver.observe tr key) ≡ false

pub honor_retry-idle :
    {k : Toolkit} (c : Cluster) (s : Session k) → IsPlain s.obj → honor_retry k c s ≡ s
unfolding honor_retry
honor_retry-idle c s p = ground (
  arith,
  p.no_retry,
  eq_iff (get_text retry_annotation s.obj.annotations) "",
  eq_iff (get_text retry_annotation s.obj.annotations) s.obj.status.retry_token,
)

module _ {k : Toolkit} (c : Cluster) (n : ℕ) (h : n ≤ 2147483647) where
  dispatch-IsBalanced :
      (class : ArtifactClass) (in_ : Input) (now : ℤ) (obs : Observation) (s : Session k)
      → obs.exists ≡ false
      → (effective_backoff class).max_attempts ≤ℤ pos n
      → observe_only s.obj ≡ false
      → IsWithin n s.obj.status
      → IsBalanced c n s (dispatch k c class in_ now obs s).0
  unfolding dispatch
  dispatch-IsBalanced class in_ now obs s a m o w =
      grind (arith, a, o, reconcile_missing-IsBalanced c n class in_ now s h m w)

  observe_store-IsBalanced :
      (class : ArtifactClass) (driver : Driver) (in_ : Input) (now : ℤ) (s : Session k)
      → ((tr : Trace) (key : String) → exists_in (driver.observe tr key) ≡ false)
      → (effective_backoff class).max_attempts ≤ℤ pos n
      → observe_only s.obj ≡ false
      → IsWithin n s.obj.status
      → IsBalanced c n s (observe_store k c class driver in_ now s).0
  unfolding observe_store
  observe_store-IsBalanced class driver in_ now s a m o w =
      let x = a s.trace in_.key in
      elim (Result-cases (driver.observe s.trace in_.key)) [
        | inl (obs, e) ↦
            grind
              (arith, e, x, dispatch-IsBalanced class in_ now obs (call (Call.observe in_.key) s))
        | inr (f, e) ↦ ground (arith, e, w)
      ]

  with_driver-IsBalanced :
      (class : ArtifactClass) (d : Result Driver) (in_ : Input) (now age : ℤ) (s : Session k)
      → SeesNothing d
      → (effective_backoff class).max_attempts ≤ℤ pos n
      → IsPlain s.obj
      → IsWithin n s.obj.status
      → IsBalanced c n s (with_driver k c class d in_ now age s).0
  unfolding with_driver
  with_driver-IsBalanced class (err e) in_ now age s a m p w = ground (arith, w)
  with_driver-IsBalanced class (ok driver) in_ now age s a m p w =
      ground (arith, p.lasting, observe_store-IsBalanced class driver in_ now s a m p.managed w)

  -- Whatever class the Artifact names, its budget is at most `n`, and its store shows no object.
  module _
      (limits : (tr : Trace) (name : String) (class : ArtifactClass)
        → c.get_class tr name ≡ ok class
        → (effective_backoff class).max_attempts ≤ℤ pos n)
      (absent : (tr : Trace) (class : ArtifactClass)
        → SeesNothing (driver_for k c.registry tr class)) where
    with_key-IsBalanced :
        (class : ArtifactClass) (in_ : Input) (now : ℤ) (s : Session k)
        → (effective_backoff class).max_attempts ≤ℤ pos n
        → IsPlain s.obj
        → IsWithin n s.obj.status
        → IsBalanced c n s (with_key k c class in_ now s).0
    unfolding with_key expire_ttl
    with_key-IsBalanced class in_ now s m p w = grind (arith, with_driver-IsBalanced, absent)

    with_class-IsBalanced :
        (class : Result ArtifactClass) (now : ℤ) (s : Session k)
        → ((cl : ArtifactClass) → class ≡ ok cl → (effective_backoff cl).max_attempts ≤ℤ pos n)
        → IsPlain s.obj
        → IsWithin n s.obj.status
        → IsBalanced c n s (with_class k c class now s).0
    unfolding with_class
    with_class-IsBalanced (err e) now s m p w = ground (arith, w)
    with_class-IsBalanced (ok class) now s m p w = grind (arith, m class refl, with_key-IsBalanced)

    reconcile_active-IsBalanced :
        (now : ℤ) (s : Session k)
        → IsPlain s.obj
        → IsWithin n s.obj.status
        → IsBalanced c n s (reconcile_active k c now s).0
    unfolding reconcile_active cancel_for_observe
    reconcile_active-IsBalanced now s p w =
        grind (arith, honor_retry-idle c s p, p.managed, with_class-IsBalanced, limits)

    reconcile-IsBalanced :
        (s : Session k)
        → IsPlain s.obj
        → IsWithin n s.obj.status
        → IsBalanced c n s (reconcile k c s).0
    unfolding reconcile note_generation suspended
    reconcile-IsBalanced s p w = grind (arith, reconcile_active-IsBalanced)

    pub handle-IsBalanced :
        (s : Session k)
        → s.obj.deletion_timestamp ≡ none
        → IsPlain s.obj
        → IsWithin n s.obj.status
        → IsBalanced c n s (handle k c s).0
    unfolding handle
    handle-IsBalanced s d p w = ground (arith, d, reconcile-IsBalanced s p w, w)
