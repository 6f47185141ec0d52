-- ===== src/Specs/Fences.antt =====
-- Where splitFrontmatter and Stamp find the closing fence.
use codefort.Base.{
  String, true, false, ◌≡◌, refl, arith, List, [], ◌∷◌, ◌++◌, Option, none, some, All, Bool-cases,
  inl, inr, string_eq, nat_eq,
}
use codefort.Specs.{closes_block, to_fence}

-- No line closes the block.
abbrev pub IsOpen : List String → Type 0
IsOpen = All (λ l. closes_block l ≡ false)

pub to_fence-open :
    (block behind : List String) (l : String)
    → IsOpen block
    → closes_block l ≡ true
    → to_fence (block ++ l ∷ behind) ≡ some (block, l ∷ behind)
unfolding to_fence
to_fence-open [] behind l h c = ground arith
to_fence-open (x ∷ block) behind l h c = rw (to_fence-open block behind l h.1 c, h.0) refl

-- What to_fence finds.
pub record Fenced (block behind : List String) : Type 0 where
  pub is_open : IsOpen block
  pub closing : String
  pub rest : List String
  pub closes : closes_block closing ≡ true
  pub cut : behind ≡ closing ∷ rest

abbrev pub Found : Option (List String × List String) → Type 0
Found none = Unit
Found (some (block, behind)) = Fenced block behind

add_line :
    (l : String) (o : Option (List String × List String))
    → closes_block l ≡ false
    → Found o
    → Found (elim o [ none ↦ none | some (block, behind) ↦ some (l ∷ block, behind) ])
add_line l none c f = tt
add_line l (some (block, behind)) c f = record {
  is_open = (c, f.is_open);
  closing = f.closing;
  rest = f.rest;
  closes = f.closes;
  cut = f.cut;
}

pub to_fence-Found : (ls : List String) → Found (to_fence ls)
unfolding to_fence
to_fence-Found [] = tt
to_fence-Found (l ∷ ls) = elim (Bool-cases (closes_block l)) [
  | inl c ↦ rw c (record { is_open = tt; closing = l; rest = ls; closes = c; cut = refl })
  | inr c ↦ rw c (add_line l (to_fence ls) c (to_fence-Found ls))
]
