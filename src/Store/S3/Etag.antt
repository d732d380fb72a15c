-- ===== src/Store/S3/Etag.antt =====
-- The digest that the s3 driver reports, from a quoted ETag.
use Prim.Native.Char.{char}
use Prim.Native.String.{String, ◌++◌}
use text.Mathlib.TextLemmas.{cons-append, cons-ne-nil, nil-append}
use artifact_controller.Prelude.{false, ◌≡◌, ◌≢◌, ◌∙◌, refl, arith, none, some, ◌⊎◌, inl, inr, ap}
use artifact_controller.Web.Texts.{trim_right}
use artifact_controller.Store.S3.{Head, is_quote, trim_left, trim_quotes, digest_of}

-- No character of the text is a quote.
abbrev pub Unquoted : String → Type 0
Unquoted String.[] = Unit
Unquoted (String.◌∷◌ c s) = (is_quote c ≡ false) × Unquoted s

-- The text between quotes, as HTTP writes an ETag.
abbrev pub quoted : String → String
quoted s = "\"" ++ (s ++ "\"")

trim_right-Unquoted : (s : String) → Unquoted s → trim_right is_quote s ≡ s
unfolding trim_right
trim_right-Unquoted String.[] h = refl
trim_right-Unquoted (String.◌∷◌ c s) (n, h) = ground (arith, n, trim_right-Unquoted s h)

trim_right-closed : (s : String) → Unquoted s → trim_right is_quote (s ++ "\"") ≡ s
unfolding trim_right
trim_right-closed String.[] h = refl
trim_right-closed (String.◌∷◌ c s) (n, h) =
    rw (cons-append c s "\"", trim_right) (ground (arith, n, trim_right-closed s h))

trim_left-Unquoted : (s t : String) → Unquoted s → s ≢ "" → trim_left is_quote (s ++ t) ≡ s ++ t
unfolding trim_left
trim_left-Unquoted String.[] t h n = absurd (n refl)
trim_left-Unquoted (String.◌∷◌ c s) t (q, h) n =
    rw (cons-append c s t, trim_left) (ground (arith, q))

trim_left-quoted : (s : String) → trim_left is_quote (quoted s) ≡ trim_left is_quote (s ++ "\"")
unfolding trim_left
trim_left-quoted s =
    ap (trim_left is_quote) (cons-append (char 34 tt) "" (s ++ "\""))
    ∙ ap (trim_left is_quote) (nil-append (s ++ "\""))

trim_quotes-quoted : (s : String) → Unquoted s → trim_quotes (quoted s) ≡ s
unfolding trim_quotes
trim_quotes-quoted String.[] h = refl
trim_quotes-quoted (String.◌∷◌ c s) h =
    ap (trim_right is_quote) (
      trim_left-quoted (String.◌∷◌ c s)
      ∙ trim_left-Unquoted (String.◌∷◌ c s) "\"" h (cons-ne-nil c s))
    ∙ trim_right-closed (String.◌∷◌ c s) h

-- The digest of an object without a checksum is its ETag without the quotes that HTTP puts around
-- it, for every ETag that has none itself.
pub digest_of-etag :
    (head : Head) (s : String)
    → (head.checksum_sha256 ≡ none) ⊎ (head.checksum_sha256 ≡ some "")
    → head.etag ≡ some (quoted s)
    → Unquoted s
    → digest_of head ≡ "etag:" ++ s
unfolding digest_of
digest_of-etag head s (inl n) e h = ground (arith, n, e, trim_quotes-quoted s h)
digest_of-etag head s (inr n) e h = ground (arith, n, e, trim_quotes-quoted s h)
