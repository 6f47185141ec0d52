-- ===== src/Specs/Upserts.antt =====
-- What upsertYAML keeps of a block and what it adds.
use codefort.Base.{
  String, Bool, true, false, not, ◌&&◌, ◌≡◌, refl, arith, List, [], ◌∷◌, some, select, select_first,
  Bool-cases, inl, inr, string_eq, nat_eq,
}
use codefort.Specs.{closes_block, yaml_line, sets_key, upsert_yaml}
use codefort.Specs.Fences.{IsOpen}

-- A line that sets neither key.
abbrev pub is_other : (String → String) → String → Bool
is_other trim_space l =
    not (sets_key trim_space "last_verified" l) && not (sets_key trim_space "alignment" l)

module _ (trim_space : String → String) where
  pub upsert_yaml-IsOpen :
      (key v : String) (block : List String)
      → closes_block (yaml_line key v) ≡ false
      → IsOpen block
      → IsOpen (upsert_yaml trim_space key v block)
  unfolding upsert_yaml
  upsert_yaml-IsOpen key v [] c h = (c, tt)
  upsert_yaml-IsOpen key v (l ∷ ls) c h = elim (Bool-cases (sets_key trim_space key l)) [
    | inl s ↦ rw s (c, h.1)
    | inr s ↦ rw s (h.0, upsert_yaml-IsOpen key v ls c h.1)
  ]

  pub upsert_yaml-first :
      (key v : String) (block : List String)
      → sets_key trim_space key (yaml_line key v) ≡ true
      → select_first (sets_key trim_space key) (upsert_yaml trim_space key v block)
        ≡ some (yaml_line key v)
  unfolding upsert_yaml
  upsert_yaml-first key v [] s = rw s refl
  upsert_yaml-first key v (l ∷ ls) s = ground (arith, upsert_yaml-first key v ls s)

  pub upsert_yaml-first_other :
      (key v other : String) (a : String) (block : List String)
      → sets_key trim_space other (yaml_line key v) ≡ false
      → sets_key trim_space key a ≡ false
      → select_first (sets_key trim_space other) block ≡ some a
      → select_first (sets_key trim_space other) (upsert_yaml trim_space key v block) ≡ some a
  unfolding upsert_yaml
  upsert_yaml-first_other key v other a [] s t e = cc
  upsert_yaml-first_other key v other a (l ∷ ls) s t e =
      ground (arith, upsert_yaml-first_other key v other a ls s t)

  pub upsert_yaml-same :
      (key v : String) (block : List String)
      → select_first (sets_key trim_space key) block ≡ some (yaml_line key v)
      → upsert_yaml trim_space key v block ≡ block
  unfolding upsert_yaml
  upsert_yaml-same key v [] e = cc
  upsert_yaml-same key v (l ∷ ls) e = ground (arith, upsert_yaml-same key v ls)

  pub upsert_yaml-others :
      (p : String → Bool) (key v : String) (block : List String)
      → p (yaml_line key v) ≡ false
      → ((l : String) → sets_key trim_space key l ≡ true → p l ≡ false)
      → select p (upsert_yaml trim_space key v block) ≡ select p block
  unfolding upsert_yaml
  upsert_yaml-others p key v [] n h = rw n refl
  upsert_yaml-others p key v (l ∷ ls) n h = ground (arith, h l, upsert_yaml-others p key v ls n h)

  pub drops_verified :
      (l : String) → sets_key trim_space "last_verified" l ≡ true → is_other trim_space l ≡ false
  drops_verified l s = rw s refl

  pub drops_alignment :
      (l : String) → sets_key trim_space "alignment" l ≡ true → is_other trim_space l ≡ false
  drops_alignment l s = ground (arith, s)
