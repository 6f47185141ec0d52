-- ===== src/Pulls/Keywords/Mentions.antt =====
-- The numbers that a text names, and the matches that the matcher lists.
use codefort.Base.{
  exists, ltb, ℕ, ◌≤◌, String, Bool, true, false, ◌||◌, Option, none, some, List, [], ◌∷◌, ◌==◌,
  nat_eq, nat_beq_iff, ◌≡◌, refl, sym, ◌∙◌, ap, ◌↔◌, ◌⊎◌, inl, inr, arith, Bool-cases, Option-cases,
  All, Any,
}
use codefort.Pulls.Keywords.{
  codes, is_word, after_keyword, spaced, keywords, match_any, matches_from, closing_matches,
}
use codefort.Pulls.Keywords.Meaning.{
  IsReference, IsPlain, reference_found, IsReference-sound, one_number,
}

-- A match that reads as the number n.
abbrev pub mentions : List (Option ℕ) → ℕ → Bool
mentions [] n = false
mentions (none ∷ ms) n = mentions ms n
mentions (some m ∷ ms) n = n == m || mentions ms n

some-injective : {A : Type 0} (a b : A) → some a ≡ some b → a ≡ b
some-injective a b e = ap (λ x. elim x [ none ↦ a | some y ↦ y ]) e

-- The alternatives of the expression.
abbrev pub IsClosing : List String → List ℕ → Option ℕ → Type 0
IsClosing ks s n = Any (λ k. IsReference k s n) ks

same_number :
    (k : String) (ks : List String) (s : List ℕ) (m n : Option ℕ)
    → IsPlain k
    → All IsPlain ks
    → IsReference k s m
    → IsClosing ks s n
    → m ≡ n
same_number k [] s m n p a r c = elim c [ ]
same_number k (k' ∷ ks) s m n p a r (inl c) =
    some-injective m n (sym (one_number k s m p r) ∙ one_number k' s n a.0 c)
same_number k (k' ∷ ks) s m n p a r (inr c) = same_number k ks s m n p a.1 r c

match_any_found :
    (ks : List String) (s : List ℕ) (n : Option ℕ)
    → All IsPlain ks
    → IsClosing ks s n
    → match_any ks s ≡ some n
unfolding match_any
match_any_found [] s n a c = elim c [ ]
match_any_found (k ∷ ks) s n a (inl c) = rw (match_any, reference_found k s n c) refl
match_any_found (k ∷ ks) s n a (inr c) = elim (Option-cases (spaced (after_keyword (codes k) s))) [
  | inl e ↦ rw (match_any, e) (match_any_found ks s n a.1 c)
  | inr (m, e) ↦
      rw (match_any, e)
        (ap (λ x. some x) (same_number k ks s m n a.0 a.1 (IsReference-sound k s m e) c))
]

match_any_sound :
    (ks : List String) (s : List ℕ) (n : Option ℕ) → match_any ks s ≡ some n → IsClosing ks s n
unfolding match_any
match_any_sound [] s n e = cc
match_any_sound (k ∷ ks) s n e = elim (Option-cases (spaced (after_keyword (codes k) s))) [
  | inl f ↦ inr (match_any_sound ks s n (ground (arith, f, e)))
  | inr (m, f) ↦ inl (IsReference-sound k s n (f ∙ ground (arith, f, e)))
]

plain_of : (cs : List ℕ) → exists (λ c. ltb c 33) cs ≡ false → All (λ x. 33 ≤ x) cs
plain_of [] h = tt
plain_of (c ∷ cs) h = (ground (arith, h), plain_of cs (ground (arith, h)))

words-IsPlain :
    (ks : List String) → exists (λ k. exists (λ c. ltb c 33) (codes k)) ks ≡ false → All IsPlain ks
words-IsPlain [] h = tt
words-IsPlain (k ∷ ks) h =
    (plain_of (codes k) (ground (arith, h)), words-IsPlain ks (ground (arith, h)))

keywords-IsPlain : All IsPlain keywords
unfolding codes
keywords-IsPlain = words-IsPlain keywords refl

-- The seven words that close an issue.
abbrev pub closing_words : List String
closing_words = "closes" ∷ "close" ∷ "fixed" ∷ "fixe" ∷ "fixes" ∷ "resolves" ∷ "resolve" ∷ []

-- At some place that no letter, digit or underscore comes before, the text has one of those words with
-- the number n.
abbrev pub Names : Bool → List ℕ → ℕ → Type 0
Names in_word [] n = ⊥
Names in_word (c ∷ s) n =
    ((in_word ≡ false) × IsClosing closing_words (c ∷ s) (some n)) ⊎ Names (is_word c) s n

mentions_named :
    (in_word : Bool) (s : List ℕ) (n : ℕ)
    → mentions (matches_from in_word s) n ≡ true
    → Names in_word s n
unfolding matches_from
mentions_named in_word [] n h = cc
mentions_named true (c ∷ s) n h = inr (mentions_named (is_word c) s n h)
mentions_named false (c ∷ s) n h = elim (Option-cases (match_any keywords (c ∷ s))) [
  | inl e ↦ inr (mentions_named (is_word c) s n (ground (arith, e, h)))
  | inr (m, e) ↦ elim (Option-cases m) [
    | inl f ↦ inr (mentions_named (is_word c) s n (ground (arith, e, f, h)))
    | inr (k, f) ↦ elim (Bool-cases (n == k)) [
      | inl g ↦ inl (
        refl,
        match_any_sound keywords (c ∷ s) (some n)
            (e ∙ ap (λ x. some x) (f ∙ ap (λ x. some x) (sym ((nat_beq_iff n k).0 g)))),
      )
      | inr g ↦ inr (mentions_named (is_word c) s n (ground (arith, e, f, g, h)))
    ]
  ]
]

named_mentions :
    (in_word : Bool) (s : List ℕ) (n : ℕ)
    → Names in_word s n
    → mentions (matches_from in_word s) n ≡ true
unfolding matches_from
named_mentions in_word [] n h = elim h [ ]
named_mentions true (c ∷ s) n (inl (e, h)) = cc
named_mentions true (c ∷ s) n (inr h) = named_mentions (is_word c) s n h
named_mentions false (c ∷ s) n (inl (e, h)) =
    ground (arith, match_any_found keywords (c ∷ s) (some n) keywords-IsPlain h, nat_beq_iff n n)
named_mentions false (c ∷ s) n (inr h) = elim (Option-cases (match_any keywords (c ∷ s))) [
  | inl e ↦ ground (arith, e, named_mentions (is_word c) s n h)
  | inr (m, e) ↦ elim (Option-cases m) [
    | inl f ↦ ground (arith, e, f, named_mentions (is_word c) s n h)
    | inr (k, f) ↦ ground (arith, e, f, named_mentions (is_word c) s n h)
  ]
]

pub mentions_iff :
    (text : String) (n : ℕ)
    → (mentions (closing_matches text) n ≡ true) ↔ Names false (codes text) n
unfolding closing_matches
mentions_iff text n = (mentions_named false (codes text) n, named_mentions false (codes text) n)
