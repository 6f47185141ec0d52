-- ===== src/Specs/Examples.antt =====
-- Examples for the stamps: a spec with a block of three lines, of which one is an old stamp.
use Prim.Native.String.{len}
use codefort.Base.{
  Option, none, ltb, if◌then◌else◌, String, List, [], ◌∷◌, ◌≡◌, refl, some, select, select_first,
}
use codefort.Specs.{
  split_frontmatter, split_lines, decode_block, stamp, to_fence, closes_block, upsert_yaml,
  sets_key, yaml_line,
}
use codefort.Specs.Upserts.{is_other}
use codefort.Specs.Stamping.{ReadsBack, stamp_read_back}

-- No line of the example has blanks at its ends.
abbrev trim_space : String → String
trim_space s = s

abbrev spec_file : List String
spec_file = "---" ∷ "id: budget" ∷ "alignment: 0.50" ∷ "title: Budget" ∷ "---" ∷ "# Budget" ∷ []

abbrev restamped : List String
restamped = stamp trim_space "2026-01-02" "0.75" spec_file

restamped_lines :
    restamped
    ≡ "---" ∷ "id: budget" ∷ "alignment: 0.75" ∷ "title: Budget" ∷ "last_verified: 2026-01-02"
      ∷ "---" ∷ "# Budget" ∷ []
unfolding stamp to_fence closes_block upsert_yaml
restamped_lines = refl

-- A decoder that refuses a block of more than 80 characters, and else gives the block back.
abbrev decode : String → Option String
decode s = if ltb 80 (len s) then none else some s

stamp_read_back_example :
    ReadsBack trim_space "2026-01-02" "0.75" refl refl decode ""
      (split_lines restamped).block
      ("# Budget" ∷ [])
      (split_frontmatter trim_space decode "" restamped)
    × (select_first (sets_key trim_space "last_verified") (split_lines restamped).block
        ≡ some (yaml_line "last_verified" "2026-01-02"))
    × (select_first (sets_key trim_space "alignment") (split_lines restamped).block
        ≡ some (yaml_line "alignment" "0.75"))
    × (select (is_other trim_space) (split_lines restamped).block
        ≡ select (is_other trim_space) (split_lines spec_file).block)
unfolding split_frontmatter split_lines to_fence closes_block decode_block
stamp_read_back_example =
    stamp_read_back trim_space "2026-01-02" "0.75" refl refl decode "" spec_file
      "id: budget\nalignment: 0.50\ntitle: Budget" ("# Budget" ∷ []) 6 refl
