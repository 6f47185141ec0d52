-- ===== src/Specs.antt =====
-- internal/specs: the front matter of a spec file, as specs.go reads it and verify.go stamps it. A
-- file is its lines, with CRLF normalised; splitting and joining them at newlines is Go's. The YAML
-- decoder and strings.TrimSpace are left out or parameters, and the alignment's text is given.
pub mod Lines
pub mod Fences
pub mod Upserts
pub mod Stamping
pub mod Examples
use Prim.Native.Char.{Char, code}
use Prim.Native.String
use Prim.Native.String.{◌++◌}
use mathlib.Core.List
use codefort.Base.{
  ℕ, ◌+◌, String, Bool, true, false, ◌&&◌, ◌||◌, Option, none, some, List, [], ◌∷◌, ◌==◌, nat_eq,
  string_eq, if◌then◌else◌, length,
}

abbrev pub fence : String
fence = "---"

is_blank : Char → Bool
is_blank c = code c == b' ' || code c == b'\t'

-- strings.HasPrefix
unfoldable pub has_prefix : String → String → Bool
has_prefix s String.[] = true
has_prefix String.[] (String.◌∷◌ c p) = false
has_prefix (String.◌∷◌ d s) (String.◌∷◌ c p) = code d == code c && has_prefix s p

-- strings.TrimRight(line, " \t")
unfoldable pub trim_right : String → String
unfolding is_blank
trim_right String.[] = String.[]
trim_right (String.◌∷◌ c s) =
    let rest = trim_right s in if rest == "" && is_blank c then String.[] else String.◌∷◌ c rest

unfoldable pub closes_block : String → Bool
unfolding trim_right
closes_block l = trim_right l == fence || trim_right l == "..."

-- The lines before the closing fence, and those from it on.
unfoldable pub to_fence : List String → Option (List String × List String)
to_fence [] = none
to_fence (l ∷ ls) =
    let rest = to_fence ls in
    if closes_block l
    then some ([], l ∷ ls)
    else elim rest [ none ↦ none | some (block, behind) ↦ some (l ∷ block, behind) ]

-- The block between the fences, the body, and the number of the body's first line.
pub record Split : Type 0 where
  pub block : List String
  pub body : List String
  pub body_start : ℕ

abbrev after_fence : List String → List String
after_fence [] = []
after_fence (l ∷ ls) = ls

pub split_block : List String → Option (List String × List String) → Split
split_block ls none = record { block = []; body = ls; body_start = 1 }
split_block ls (some (block, behind)) = record {
  block = block;
  body = after_fence behind;
  body_start = length block + 3;
}

pub split_lines : List String → Split
unfolding split_block
split_lines [] = record { block = []; body = []; body_start = 1 }
split_lines (l ∷ ls) =
    if l == fence
    then split_block (l ∷ ls) (to_fence ls)
    else record { block = []; body = l ∷ ls; body_start = 1 }

-- strings.Join(lines, "\n")
pub join_lines : List String → String
join_lines [] = ""
join_lines (l ∷ []) = l
join_lines (l ∷ m ∷ ls) = l ++ ("\n" ++ join_lines (m ∷ ls))

-- What splitFrontmatter returns: the fields, the body and its first line, or the decoder's error.
pub data Reading (Fields : Type 0) : Type 0 where
  read_spec : Fields → List String → ℕ → Reading Fields
  bad_frontmatter : Reading Fields

-- The decoder is a parameter, none for an error; a blank block is not decoded.
module _ {Fields : Type 0} (trim_space : String → String) (decode : String → Option Fields)
    (zero_fields : Fields) where
  pub decode_block : Split → Reading Fields
  unfolding join_lines
  decode_block s =
      if trim_space (join_lines s.block) == ""
      then read_spec zero_fields s.body s.body_start
      else elim (decode (join_lines s.block)) [
        | none ↦ bad_frontmatter
        | some fields ↦ read_spec fields s.body s.body_start
      ]

  pub split_frontmatter : List String → Reading Fields
  unfolding decode_block split_lines
  split_frontmatter ls = decode_block (split_lines ls)

abbrev pub yaml_line : String → String → String
yaml_line key value = (key ++ ": ") ++ value

abbrev pub fresh_block : String → String → List String
fresh_block date alignment =
    fence ∷ yaml_line "last_verified" date ∷ yaml_line "alignment" alignment ∷ fence ∷ []

module _ (trim_space : String → String) where
  unfoldable pub sets_key : String → String → Bool
  unfolding has_prefix
  sets_key key l = trim_space l == key ++ ":" || has_prefix (trim_space l) (key ++ ": ")

  unfoldable pub upsert_yaml : String → String → List String → List String
  unfolding sets_key
  upsert_yaml key value [] = yaml_line key value ∷ []
  upsert_yaml key value (l ∷ ls) =
      let rest = upsert_yaml key value ls in
      if sets_key key l then yaml_line key value ∷ ls else l ∷ rest

  abbrev pub stamped : String → String → List String → List String
  stamped date alignment block =
      upsert_yaml "alignment" alignment (upsert_yaml "last_verified" date block)

  unfoldable pub stamp_block :
      String → String → List String → Option (List String × List String) → List String
  stamp_block date alignment ls none = List.◌++◌ (fresh_block date alignment) ls
  stamp_block date alignment ls (some (block, behind)) =
      fence ∷ List.◌++◌ (stamped date alignment block) behind

  unfoldable pub stamp : String → String → List String → List String
  unfolding stamp_block
  stamp date alignment [] = fresh_block date alignment
  stamp date alignment (l ∷ ls) =
      if l == fence
      then stamp_block date alignment (l ∷ ls) (to_fence ls)
      else List.◌++◌ (fresh_block date alignment) (l ∷ ls)
