-- ===== src/Access/Paths.antt =====
-- internal/server/access.go: the repository that a request's path names, with the functions of Go's
-- strings package that repoFromPath calls.
pub mod Naming
use Prim.Native.Char.{Char, code}
use Prim.Native.String
use Prim.Native.String.{len, slice}
use text.Mathlib.Text.{starts_with}
use codefort.Base.{
  String, Bool, true, false, ◌||◌, Option, none, some, ◌==◌, nat_eq, string_eq, if◌then◌else◌,
}

-- strings.TrimPrefix
unfoldable pub trim_prefix : String → String → String
trim_prefix s prefix = if starts_with s prefix then slice s (len prefix) (len s) else s

-- strings.TrimSuffix with a suffix that is not empty
unfoldable pub trim_suffix : String → String → String
trim_suffix String.[] suffix = String.[]
trim_suffix (String.◌∷◌ c s) suffix =
    let rest = trim_suffix s suffix in
    if String.◌∷◌ c s == suffix then String.[] else String.◌∷◌ c rest

unfoldable pub has_suffix : String → String → Bool
has_suffix String.[] suffix = String.[] == suffix
has_suffix (String.◌∷◌ c s) suffix = String.◌∷◌ c s == suffix || has_suffix s suffix

-- The text before the first slash, and what follows the slash. Two cuts are strings.SplitN(s, "/", 3)
-- less the third part, which is not used.
unfoldable pub cut_slash : String → String × Option String
cut_slash String.[] = (String.[], none)
cut_slash (String.◌∷◌ c s) =
    let (before, after) = cut_slash s in
    if code c == b'/' then (String.[], some s) else (String.◌∷◌ c before, after)

unfoldable pub repo_in : String × Option String → Option (String × String)
unfolding cut_slash trim_suffix
repo_in (owner, none) = none
repo_in (owner, some more) =
    let name = (cut_slash more).0 in
    if owner == "" || name == "" then none else some (owner, trim_suffix name ".git")

unfoldable pub repo_from_path : String → String → Option (String × String)
unfolding trim_prefix cut_slash repo_in
repo_from_path path prefix = repo_in (cut_slash (trim_prefix (trim_prefix path prefix) "/"))

-- net/http's method names
unfoldable pub is_read_method : String → Bool
is_read_method m = m == "GET" || m == "HEAD" || m == "OPTIONS"
