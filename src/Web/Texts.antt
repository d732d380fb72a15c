-- ===== src/Web/Texts.antt =====
-- strings.TrimRight and the header map of a request.
use Prim.Native.Char.{Char, code}
use Prim.Native.String.{String}
use artifact_controller.Prelude.{Bool, ◌&&◌, ◌||◌, ◌==◌, if◌then◌else◌, equal}
use artifact_controller.Prelude.Maps.{insert}
use artifact_controller.Web.{Web, WebRequest}

-- The characters of a cutset.
abbrev is_newline : Char → Bool
is_newline c = equal (code c) 13 || equal (code c) 10

abbrev pub is_slash : Char → Bool
is_slash c = equal (code c) b'/'

-- strings.TrimRight: the characters of the cutset at the end go.
unfoldable pub trim_right : (Char → Bool) → String → String
trim_right cut String.[] = ""
trim_right cut (String.◌∷◌ c s) =
    let rest = trim_right cut s in if rest == "" && cut c then "" else String.◌∷◌ c rest

-- strings.TrimRight(s, "\r\n")
unfoldable pub trim_newlines : String → String
unfolding trim_right
trim_newlines = trim_right is_newline

-- Header.Set
unfoldable pub set_header : Web → String → String → WebRequest → WebRequest
set_header w name value request = record request {
  headers = insert (w.canonical_header name) value request.headers;
}
