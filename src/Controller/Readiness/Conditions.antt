-- ===== src/Controller/Readiness/Conditions.antt =====
-- Whether Ready is True, through the changes of the conditions.
use artifact_controller.Prelude.{true, false, ◌≡◌, arith, String, List, if◌then◌else◌}
use artifact_controller.Api.Conditions.{
  Condition, ConditionType, ConditionStatus, Reason, same_type, status_is_true,
}
use artifact_controller.Toolkit.{Toolkit, ConditionLaws}

module _ {k : Toolkit} (laws : ConditionLaws k) where
  pub is_true-mark :
      (t u : ConditionType) (s : ConditionStatus) (r : Reason) (m : String) (l : List Condition)
      → k.is_true u (k.mark t s r m l) ≡ (if same_type t u then status_is_true s else k.is_true u l)
  is_true-mark t u s r m l = ground (
    arith,
    laws.get-mark t u s r m l,
    laws.is_true_lem u l,
    laws.is_true_lem u (k.mark t s r m l),
  )

  pub is_true-drop :
      (t u : ConditionType) (l : List Condition)
      → k.is_true u (k.drop t l) ≡ (if same_type t u then false else k.is_true u l)
  is_true-drop t u l =
      ground (arith, laws.get-drop t u l, laws.is_true_lem u l, laws.is_true_lem u (k.drop t l))

  pub ready-mark_false :
      (r : Reason) (m : String) (l : List Condition)
      → k.is_true ConditionType.ready (k.mark ConditionType.ready ConditionStatus.is_false r m l)
        ≡ false
  unfolding same_type
  ready-mark_false r m l =
      is_true-mark ConditionType.ready ConditionType.ready ConditionStatus.is_false r m l

  -- Ready is as before where another condition changes.
  pub ready-mark-other :
      (t : ConditionType) (s : ConditionStatus) (r : Reason) (m : String) (l : List Condition)
      → same_type t ConditionType.ready ≡ false
      → k.is_true ConditionType.ready (k.mark t s r m l) ≡ k.is_true ConditionType.ready l
  ready-mark-other t s r m l e = ground (arith, e, is_true-mark t ConditionType.ready s r m l)

  pub ready-drop-other :
      (t : ConditionType) (l : List Condition)
      → same_type t ConditionType.ready ≡ false
      → k.is_true ConditionType.ready (k.drop t l) ≡ k.is_true ConditionType.ready l
  ready-drop-other t l e = ground (arith, e, is_true-drop t ConditionType.ready l)

  pub ready-mark_true :
      (r : Reason) (m : String) (l : List Condition)
      → k.is_true ConditionType.ready (k.mark ConditionType.ready ConditionStatus.is_true r m l)
        ≡ true
  unfolding same_type
  ready-mark_true r m l =
      is_true-mark ConditionType.ready ConditionType.ready ConditionStatus.is_true r m l
