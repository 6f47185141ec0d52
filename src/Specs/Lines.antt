-- ===== src/Specs/Lines.antt =====
-- The lines that Stamp writes, as the readers of the front matter see them.
use Prim.Native.Char.{Char, code}
use Prim.Native.String.{◌++◌}
use text.Mathlib.TextLemmas.{cons-append, head-eq_of_cons-eq}
use codefort.Base.{
  String, true, false, ◌≡◌, ◌≢◌, refl, ap, nat_eq, string_eq, ◌==◌, arith, eq_iff, ◌≤◌,
}
use codefort.Specs.{has_prefix, trim_right, closes_block, yaml_line, sets_key}

has_prefix-append : (p s : String) → has_prefix (p ++ s) p ≡ true
unfolding has_prefix
has_prefix-append String.[] s = refl
has_prefix-append (String.◌∷◌ c p) s = rw cons-append (ground (arith, has_prefix-append p s))

has_prefix_apart :
    (d c : Char) (s p : String)
    → code d ≢ code c
    → has_prefix (String.◌∷◌ d s) (String.◌∷◌ c p) ≡ false
unfolding has_prefix
has_prefix_apart d c s p h = ground arith

eq_apart :
    (d c : Char) (s p : String) → code d ≢ code c → (String.◌∷◌ d s == String.◌∷◌ c p) ≡ false
eq_apart d c s p h =
    let apart : String.◌∷◌ d s ≢ String.◌∷◌ c p = λ e. h (ap code (head-eq_of_cons-eq e)) in
    ground (arith, eq_iff (String.◌∷◌ d s) (String.◌∷◌ c p), apart)

trim_right_word :
    (d : Char) (s : String)
    → code d ≢ b' '
    → code d ≢ b'\t'
    → trim_right (String.◌∷◌ d s) ≡ String.◌∷◌ d (trim_right s)
unfolding trim_right
trim_right_word d s h k = ground arith

closes_block_word : (d : Char) (s : String) → b'a' ≤ code d → closes_block (String.◌∷◌ d s) ≡ false
unfolding closes_block
closes_block_word d s h =
    rw
      (
        trim_right_word d s (omega arith) (omega arith),
        eq_apart d "-" (trim_right s) "--" (omega arith),
      )
      (eq_apart d "." (trim_right s) ".." (omega arith))

pub closes_verified : (v : String) → closes_block (yaml_line "last_verified" v) ≡ false
closes_verified v =
    rw (cons-append "l" "ast_verified: " v)
      (closes_block_word "l" ("ast_verified: " ++ v) (omega arith))

pub closes_alignment : (v : String) → closes_block (yaml_line "alignment" v) ≡ false
closes_alignment v =
    rw (cons-append "a" "lignment: " v) (closes_block_word "a" ("lignment: " ++ v) (omega arith))

module _ (trim_space : String → String) where
  pub sets_own :
      (key v : String)
      → trim_space (yaml_line key v) ≡ yaml_line key v
      → sets_key trim_space key (yaml_line key v) ≡ true
  unfolding sets_key
  sets_own key v h = rw (h, has_prefix-append (key ++ ": ") v) (ground arith)

  pub verified_sets :
      (v : String)
      → trim_space (yaml_line "last_verified" v) ≡ yaml_line "last_verified" v
      → sets_key trim_space "alignment" (yaml_line "last_verified" v) ≡ false
  unfolding sets_key
  verified_sets v h =
      rw
        (
          h,
          cons-append "l" "ast_verified: " v,
          eq_apart "l" "a" ("ast_verified: " ++ v) "lignment:" (omega arith),
        )
        (has_prefix_apart "l" "a" ("ast_verified: " ++ v) "lignment: " (omega arith))

  pub alignment_sets :
      (v : String)
      → trim_space (yaml_line "alignment" v) ≡ yaml_line "alignment" v
      → sets_key trim_space "last_verified" (yaml_line "alignment" v) ≡ false
  unfolding sets_key
  alignment_sets v h =
      rw
        (
          h,
          cons-append "a" "lignment: " v,
          eq_apart "a" "l" ("lignment: " ++ v) "ast_verified:" (omega arith),
        )
        (has_prefix_apart "a" "l" ("lignment: " ++ v) "ast_verified: " (omega arith))
