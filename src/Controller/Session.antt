-- ===== src/Controller/Session.antt =====
-- The reconciler's fields and the state that a reconciliation passes along: the object that the
-- deferred patch writes back, the calls made, and the two caches of the ArtifactReconciler.
use artifact_controller.Prelude.{String, Option, none, some, List, ◌∷◌}
use artifact_controller.Prelude.Int.{ℤ, pos}
use artifact_controller.Prelude.Result.{Error, Result}
use artifact_controller.Api.Json.{Object}
use artifact_controller.Api.Conditions.{ConditionType, ConditionStatus, Reason}
use artifact_controller.Api.Artifact.{Artifact, ArtifactStatus, GeneratorReference}
use artifact_controller.Api.ArtifactClass.{ArtifactClass}
use artifact_controller.Toolkit.{Toolkit, GroupVersionKind}
use artifact_controller.Calls.{Call, Trace, EventType}
use artifact_controller.Store.{Registry}
use artifact_controller.Generator.Evaluator.{Cache}

-- The clock, the random factor of a jittered delay, and the API server. Each answer is to a call
-- made after the calls of the trace.
pub record Cluster : Type 0 where
  pub registry : Registry
  pub now : Trace → ℤ
  -- time.Duration(float64(d) * (0.9 + 0.2*rand.Float64()))
  pub scale_random : Trace → ℤ → ℤ
  pub get_artifact : Trace → String → String → Result Artifact
  pub get_class : Trace → String → Result ArtifactClass
  pub get_run : Trace → GeneratorReference → Result Object
  pub create_run : Trace → Object → Result Object
  pub delete_run : Trace → GeneratorReference → Option Error
  pub delete_artifact : Trace → String → String → Option Error
  pub patch : Trace → Artifact → Option Error
  pub watch : Trace → GroupVersionKind → Option Error

-- ctrl.Result and the error of a handler. A delay of 0 asks for no requeue.
pub record Outcome : Type 0 where
  pub requeue_after : ℤ
  pub error : Option Error

pub record Session (k : Toolkit) : Type 0 where
  pub obj : Artifact
  pub trace : Trace
  -- Evaluator.progs
  pub progs : Cache k
  -- ArtifactReconciler.watched
  pub watched : List GroupVersionKind

module _ {k : Toolkit} where
  abbrev pub requeue : ℤ → Session k → Session k × Outcome
  requeue d s = (s, record { requeue_after = d; error = none })

  -- return ctrl.Result{}, nil
  abbrev pub done : Session k → Session k × Outcome
  done s = requeue (pos 0) s

  -- return ctrl.Result{}, err
  abbrev pub fail : Error → Session k → Session k × Outcome
  fail e s = (s, record { requeue_after = pos 0; error = some e })

  abbrev pub call : Call → Session k → Session k
  call a s = record s { trace = a ∷ s.trace }

  -- r.Recorder.Event
  abbrev pub emit : EventType → String → String → Session k → Session k
  emit t reason msg s = call (Call.event t reason msg) s

  abbrev pub set_status : ArtifactStatus → Session k → Session k
  set_status st s = record s { obj = record s.obj { status = st } }

-- conditions.MarkTrue, MarkFalse, MarkUnknown and Delete on a status.
module _ (k : Toolkit) where
  abbrev pub mark_true : ConditionType → Reason → String → ArtifactStatus → ArtifactStatus
  mark_true t r m st = record st { conditions = k.mark t ConditionStatus.is_true r m st.conditions }

  abbrev pub mark_false : ConditionType → Reason → String → ArtifactStatus → ArtifactStatus
  mark_false t r m st = record st {
    conditions = k.mark t ConditionStatus.is_false r m st.conditions;
  }

  abbrev pub mark_unknown : ConditionType → Reason → String → ArtifactStatus → ArtifactStatus
  mark_unknown t r m st = record st {
    conditions = k.mark t ConditionStatus.is_unknown r m st.conditions;
  }

  abbrev pub drop_condition : ConditionType → ArtifactStatus → ArtifactStatus
  drop_condition t st = record st { conditions = k.drop t st.conditions }

  -- markStalled
  abbrev pub mark_stalled : Reason → String → ArtifactStatus → ArtifactStatus
  mark_stalled r m st =
      mark_true ConditionType.stalled r m (drop_condition ConditionType.reconciling st)

  -- markReconciling
  abbrev pub mark_reconciling : Reason → String → ArtifactStatus → ArtifactStatus
  mark_reconciling r m st =
      mark_true ConditionType.reconciling r m (drop_condition ConditionType.stalled st)

  -- A cancelled run is forgotten with its condition.
  abbrev pub forget_run : Session k → Session k
  forget_run s =
      set_status
        (drop_condition ConditionType.generator_succeeded
          (record s.obj.status { generator_ref = none; generator_succeeded_at = none }))
        s
