-- ===== src/Controller/Run/Bounds.antt =====
-- The lengths of the names and messages of generator runs.
use Prim.Native.String.{len, slice, ◌++◌ as append}
use package.text.Mathlib.TextPositions.{len-append}
use artifact_controller.Prelude.{String, ◌≤◌, arith, ltb, if◌then◌else◌, Option, none, some, map}
use artifact_controller.Prelude.Int.{ℤ}
use artifact_controller.Toolkit.{Toolkit}
use artifact_controller.Api.Json.{
  Value, Object, Members, null, bool, int64, float64, text, arr, obj, close, entry, get_member,
  keys,
}
use artifact_controller.Api.Artifact.{Artifact}
use artifact_controller.Store.Names.{sort, join}
use artifact_controller.Hash.{short, len-short-le, len-slice-le}
use artifact_controller.Controller.Run.{
  run_name, status_part, truncate, summarize_members, summarize_value, summarize_status,
}

base_le : (name : String) → len (if ltb 40 (len name) then slice name 0 40 else name) ≤ 40
base_le name = ground (arith, len-slice-le name 40)

-- A run's name has at most 63 bytes, the limit of a DNS label, where an attempt number is printed
-- in at most 11.
pub len-run_name-le :
    (k : Toolkit) (in_ : Artifact) (spec_hash : String) (attempt : ℤ)
    → len (k.itoa attempt) ≤ 11
    → len (run_name k in_ spec_hash attempt) ≤ 63
unfolding run_name
len-run_name-le k in_ spec_hash attempt h =
    let base : String = if ltb 40 (len in_.name) then slice in_.name 0 40 else in_.name in
    rw
      (
        len-append base (append "-" (append (short spec_hash 8) (append "-r" (k.itoa attempt)))),
        len-append "-" (append (short spec_hash 8) (append "-r" (k.itoa attempt))),
        len-append (short spec_hash 8) (append "-r" (k.itoa attempt)),
        len-append "-r" (k.itoa attempt),
      )
      (ground (arith, h, base_le in_.name, len-short-le spec_hash 8))

truncate_le : (out : String) → len (truncate out) ≤ 160
unfolding truncate
truncate_le out = ground (arith, len-slice-le out 157, len-append (slice out 0 157) "...")

summarize_members_le : (k : Toolkit) (o : Members) → len (summarize_members k o) ≤ 160
unfolding summarize_members
summarize_members_le k close = ground arith
summarize_members_le k (entry j v o) = truncate_le (
    join " "
      (map (λ key. status_part k key (get_member key (entry j v o))) (sort (keys (entry j v o)))))

summarize_value_le : (k : Toolkit) (v : Option Value) → len (summarize_value k v) ≤ 160
summarize_value_le k none = ground arith
summarize_value_le k (some null) = ground arith
summarize_value_le k (some (bool b)) = ground arith
summarize_value_le k (some (int64 i)) = ground arith
summarize_value_le k (some (float64 f)) = ground arith
summarize_value_le k (some (text t)) = ground arith
summarize_value_le k (some (arr xs)) = ground arith
summarize_value_le k (some (obj o)) = summarize_members_le k o

-- The summary of a run's status has at most 160 bytes.
pub len-summarize_status-le : (k : Toolkit) (run : Object) → len (summarize_status k run) ≤ 160
unfolding summarize_status
len-summarize_status-le k run = summarize_value_le k (get_member "status" run)
