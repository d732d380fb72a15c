-- ===== src/Hash.antt =====
-- internal/hash/hash.go: the content address of an identity, and its short forms.
use Prim.Native.Nat.{compare as compare_ℕ, Ordering}
use Prim.Native.Char.{Char, len_utf8}
use Prim.Native.String.{len, slice, fits, ◌++◌}
use Prim.Native.String.slice
use Prim.Native.String.len
use text.Mathlib.TextPositions.{len-append, slice-append_left, slice-append_right, slice_all}
use artifact_controller.Prelude.{
  ℕ, ◌≤◌, ◌-◌, String, List, true, ◌&&◌, ◌≡◌, refl, ap, arith, ltb, ◌==◌, if◌then◌else◌,
}
use artifact_controller.Toolkit.{Toolkit}

-- "sha256:<hex>" over the canonical JSON encoding of the identity. Marshalling a map of strings
-- does not fail, so the source's panic is not reached.
unfoldable pub canonical : Toolkit → List (String × String) → String
canonical k identity = "sha256:" ++ k.sha256_hex (k.marshal_identity identity)

strip_prefix : String → String
strip_prefix s =
    if ltb (len "sha256:") (len s) && (slice s 0 (len "sha256:") == "sha256:")
    then slice s (len "sha256:") (len s)
    else s

-- The first n characters of a canonical hash, with or without its prefix.
unfoldable pub short : String → ℕ → String
unfolding strip_prefix
short c n = let s = strip_prefix c in slice s 0 (if ltb (len s) n then len s else n)

fits-le :
    (c : Char) (n : ℕ) (t : String) (o : Ordering)
    → compare_ℕ (len_utf8 c) n ≡ o
    → len t ≤ n - len_utf8 c
    → len (fits o c t) ≤ n
fits-le c n t Ordering.lt e h = ground (arith, len.cons c t)
fits-le c n t Ordering.eq e h = ground (arith, len.cons c t)
fits-le c n t Ordering.gt e h = rw len.nil (omega arith)

pub len-slice-le : (s : String) (n : ℕ) → len (slice s 0 n) ≤ n
len-slice-le String.[] n = rw (slice.nil 0 n, len.nil) (omega arith)
len-slice-le (String.◌∷◌ c s) n = rw (slice.cons-zero c s n) (
    fits-le c n (slice s 0 (n - len_utf8 c)) (compare_ℕ (len_utf8 c) n) refl
      (len-slice-le s (n - len_utf8 c)))

-- A short form has at most the bytes that were asked for.
pub len-short-le : (c : String) (n : ℕ) → len (short c n) ≤ n
unfolding short
len-short-le c n =
    let s = strip_prefix c in
    let m : ℕ = if ltb (len s) n then len s else n in
    let e : len (slice s 0 m) ≤ m = len-slice-le s m in ground (arith, e)

strip_prefix-append : (hex : String) → len hex ≡ 64 → strip_prefix ("sha256:" ++ hex) ≡ hex
unfolding strip_prefix
strip_prefix-append hex h =
    let e : (slice ("sha256:" ++ hex) 0 (len "sha256:") == "sha256:") ≡ true =
      ap (λ s. s == "sha256:") (slice-append_left "sha256:" hex) in
    ground (arith, e, len-append "sha256:" hex, slice-append_right "sha256:" hex)

-- The 64 characters after the prefix of a canonical hash are the digest in hexadecimal.
pub short-canonical :
    (k : Toolkit) (identity : List (String × String))
    → len (k.sha256_hex (k.marshal_identity identity)) ≡ 64
    → canonical k identity ≡ "sha256:" ++ short (canonical k identity) 64
unfolding canonical short
short-canonical k identity h =
    let hex = k.sha256_hex (k.marshal_identity identity) in
    ground (arith, strip_prefix-append hex, slice_all hex)
