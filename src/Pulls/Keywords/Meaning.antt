-- ===== src/Pulls/Keywords/Meaning.antt =====
-- What the matcher finds, described by the parts of a match.
use codefort.Base.{
  ◌≤◌, ℕ, String, true, false, Option, none, some, List, [], ◌∷◌, ◌++◌, map, ◌==◌, nat_eq,
  nat_beq_iff, if◌then◌else◌, ◌≡◌, refl, sym, ap, ◌∙◌, subst, arith, inl, inr, Bool-cases,
  Option-cases, All,
}
use codefort.Pulls.Keywords.{
  codes, fold, is_digit, is_space, after_keyword, skip_spaces, digits, atoi, numbered, spaced,
}

-- A text does not go on with a digit.
abbrev pub EndsNumber : List ℕ → Type 0
EndsNumber [] = Unit
EndsNumber (c ∷ s) = is_digit c ≡ false

-- The text starts with the letters of the keyword in either case, one blank or more, a number sign and
-- the digits of a number, which it does not go on with.
pub record IsReference (keyword : String) (text : List ℕ) (n : Option ℕ) : Type 0 where
  pub letters : List ℕ
  pub blank : ℕ
  pub blanks : List ℕ
  pub digit : ℕ
  pub more : List ℕ
  pub rest : List ℕ
  pub spelled : map fold letters ≡ codes keyword
  pub blank_is : is_space blank ≡ true
  pub blanks_are : All (λ c. is_space c ≡ true) blanks
  pub digit_is : is_digit digit ≡ true
  pub digits_are : All (λ c. is_digit c ≡ true) more
  pub ends : EndsNumber rest
  pub reads : atoi (digit ∷ more) ≡ n
  pub form : text ≡ letters ++ (blank ∷ (blanks ++ (35 ∷ (digit ∷ (more ++ rest)))))

after_keyword_at :
    (letters rest : List ℕ) → after_keyword (map fold letters) (letters ++ rest) ≡ some rest
unfolding after_keyword
after_keyword_at [] rest = refl
after_keyword_at (c ∷ cs) rest =
    ground (arith, after_keyword_at cs rest, nat_beq_iff (fold c) (fold c))

after_keyword_sound :
    (k s rest : List ℕ)
    → after_keyword k s ≡ some rest
    → (letters : List ℕ) × (map fold letters ≡ k) × (s ≡ letters ++ rest)
unfolding after_keyword
after_keyword_sound [] s rest e = ([], refl, ground arith)
after_keyword_sound (k ∷ ks) [] rest e = cc
after_keyword_sound (k ∷ ks) (c ∷ s) rest e = elim (Bool-cases (fold c == k)) [
  | inr h ↦ absurd (ground (arith, h, e))
  | inl h ↦
      let (ls, m, f) = after_keyword_sound ks s rest (ground (arith, h, e)) in
      (c ∷ ls, rw ((nat_beq_iff (fold c) k).0 h, m) refl, ap (λ x. c ∷ x) f)
]

skip_spaces_at :
    (blanks : List ℕ) (c : ℕ) (rest : List ℕ)
    → All (λ b. is_space b ≡ true) blanks
    → is_space c ≡ false
    → skip_spaces (blanks ++ (c ∷ rest)) ≡ c ∷ rest
unfolding skip_spaces
skip_spaces_at [] c rest h n = rw n refl
skip_spaces_at (b ∷ bs) c rest h n = rw h.0 (skip_spaces_at bs c rest h.1 n)

skip_spaces_sound :
    (s : List ℕ)
    → (blanks : List ℕ) × All (λ b. is_space b ≡ true) blanks × (s ≡ blanks ++ skip_spaces s)
unfolding skip_spaces
skip_spaces_sound [] = ([], tt, refl)
skip_spaces_sound (c ∷ s) = elim (Bool-cases (is_space c)) [
  | inr h ↦ rw h ([], tt, refl)
  | inl h ↦ let (bs, a, f) = skip_spaces_sound s in rw h (c ∷ bs, (h, a), ap (λ x. c ∷ x) f)
]

digits_at :
    (ds rest : List ℕ)
    → All (λ d. is_digit d ≡ true) ds
    → EndsNumber rest
    → digits (ds ++ rest) ≡ ds
unfolding digits
digits_at [] [] h e = refl
digits_at [] (c ∷ s) h e = rw e refl
digits_at (d ∷ ds) rest h e = rw h.0 (ap (λ x. d ∷ x) (digits_at ds rest h.1 e))

digits_sound :
    (s : List ℕ)
    → (rest : List ℕ) × All (λ d. is_digit d ≡ true) (digits s)
      × EndsNumber rest
      × (s ≡ digits s ++ rest)
unfolding digits
digits_sound [] = ([], tt, tt, refl)
digits_sound (c ∷ s) = elim (Bool-cases (is_digit c)) [
  | inr h ↦ rw h (c ∷ s, tt, h, refl)
  | inl h ↦ let (r, a, e, f) = digits_sound s in rw h (r, (h, a), e, ap (λ x. c ∷ x) f)
]

numbered_at :
    (d : ℕ) (more rest : List ℕ)
    → is_digit d ≡ true
    → All (λ c. is_digit c ≡ true) more
    → EndsNumber rest
    → numbered (35 ∷ (d ∷ (more ++ rest))) ≡ some (atoi (d ∷ more))
unfolding numbered
numbered_at d more rest h a e = rw (numbered, digits_at (d ∷ more) rest (h, a) e) refl

pub record IsNumbered (s : List ℕ) (n : Option ℕ) : Type 0 where
  pub digit : ℕ
  pub more : List ℕ
  pub rest : List ℕ
  pub digit_is : is_digit digit ≡ true
  pub digits_are : All (λ c. is_digit c ≡ true) more
  pub ends : EndsNumber rest
  pub reads : atoi (digit ∷ more) ≡ n
  pub form : s ≡ 35 ∷ (digit ∷ (more ++ rest))

digits_of :
    (c : ℕ) (s ds : List ℕ) (n : Option ℕ)
    → digits s ≡ ds
    → elim ds [ [] ↦ none | d ∷ more ↦ if c == 35 then some (atoi (d ∷ more)) else none ] ≡ some n
    → IsNumbered (c ∷ s) n
digits_of c s [] n f e = cc
digits_of c s (d ∷ more) n f e = elim (Bool-cases (c == 35)) [
  | inr h ↦ absurd (ground (arith, h, e))
  | inl h ↦
      let (rest, all, ends, form) = digits_sound s in
      let digs : All (λ x. is_digit x ≡ true) (d ∷ more) =
        subst (λ x. All (λ y. is_digit y ≡ true) x) f all in
      record {
        digit = d;
        more = more;
        rest = rest;
        digit_is = digs.0;
        digits_are = digs.1;
        ends = ends;
        reads = ground (arith, h, e);
        form = rw ((nat_beq_iff c 35).0 h) (ap (λ x. 35 ∷ x) (form ∙ ap (λ x. x ++ rest) f));
      }
]

numbered_sound : (s : List ℕ) (n : Option ℕ) → numbered s ≡ some n → IsNumbered s n
unfolding numbered
numbered_sound [] n e = cc
numbered_sound (c ∷ s) n e = digits_of c s (digits s) n refl e

pub reference_found :
    (k : String) (s : List ℕ) (n : Option ℕ)
    → IsReference k s n
    → spaced (after_keyword (codes k) s) ≡ some n
unfolding spaced
reference_found k s n r =
    let tail = r.blanks ++ (35 ∷ (r.digit ∷ (r.more ++ r.rest))) in
    let start : after_keyword (codes k) s ≡ some (r.blank ∷ tail) =
      rw (r.form, ← r.spelled) (after_keyword_at r.letters (r.blank ∷ tail)) in
    rw
      (
        start,
        spaced,
        r.blank_is,
        skip_spaces_at r.blanks 35 (r.digit ∷ (r.more ++ r.rest)) r.blanks_are refl,
        numbered_at r.digit r.more r.rest r.digit_is r.digits_are r.ends,
      )
      (ap (λ x. some x) r.reads)

IsReference-of :
    (k : String) (s after : List ℕ) (n : Option ℕ)
    → after_keyword (codes k) s ≡ some after
    → spaced (some after) ≡ some n
    → IsReference k s n
unfolding spaced
IsReference-of k s [] n f e = cc
IsReference-of k s (c ∷ t) n f e = elim (Bool-cases (is_space c)) [
  | inr h ↦ absurd (ground (arith, h, e))
  | inl h ↦
      let (letters, spelled, form) = after_keyword_sound (codes k) s (c ∷ t) f in
      let (blanks, all, gap) = skip_spaces_sound t in
      let number = numbered_sound (skip_spaces t) n (ground (arith, h, e)) in
      record {
        letters = letters;
        blank = c;
        blanks = blanks;
        digit = number.digit;
        more = number.more;
        rest = number.rest;
        spelled = spelled;
        blank_is = h;
        blanks_are = all;
        digit_is = number.digit_is;
        digits_are = number.digits_are;
        ends = number.ends;
        reads = number.reads;
        form = form ∙ ap (λ x. letters ++ (c ∷ x)) (gap ∙ ap (λ x. blanks ++ x) number.form);
      }
]

pub IsReference-sound :
    (k : String) (s : List ℕ) (n : Option ℕ)
    → spaced (after_keyword (codes k) s) ≡ some n
    → IsReference k s n
unfolding spaced
IsReference-sound k s n e = elim (Option-cases (after_keyword (codes k) s)) [
  | inl f ↦ absurd (ground (arith, f, e))
  | inr (after, f) ↦ IsReference-of k s after n f (rw f at e)
]

-- The text from its first blank on.
abbrev pub from_blank : List ℕ → List ℕ
from_blank [] = []
from_blank (c ∷ s) = let rest = from_blank s in if is_space c then c ∷ s else rest

no_blank : (c : ℕ) → 33 ≤ fold c → is_space c ≡ false
no_blank c h = ground (arith, h)

from_blank_at :
    (letters : List ℕ) (c : ℕ) (rest : List ℕ)
    → All (λ x. 33 ≤ x) (map fold letters)
    → is_space c ≡ true
    → from_blank (letters ++ (c ∷ rest)) ≡ c ∷ rest
from_blank_at [] c rest a h = rw h refl
from_blank_at (l ∷ ls) c rest a h = rw (no_blank l a.0) (from_blank_at ls c rest a.1 h)

-- The number of a reference does not depend on the keyword.
abbrev pub IsPlain : String → Type 0
IsPlain k = All (λ x. 33 ≤ x) (codes k)

pub one_number :
    (k : String) (s : List ℕ) (n : Option ℕ)
    → IsPlain k
    → IsReference k s n
    → spaced (some (from_blank s)) ≡ some n
unfolding spaced
one_number k s n a r =
    let tail = r.blanks ++ (35 ∷ (r.digit ∷ (r.more ++ r.rest))) in
    let start : from_blank s ≡ r.blank ∷ tail = rw r.form (
      from_blank_at r.letters r.blank tail (subst (λ x. All (λ y. 33 ≤ y) x) (sym r.spelled) a)
        r.blank_is) in
    rw
      (
        start,
        spaced,
        r.blank_is,
        skip_spaces_at r.blanks 35 (r.digit ∷ (r.more ++ r.rest)) r.blanks_are refl,
        numbered_at r.digit r.more r.rest r.digit_is r.digits_are r.ends,
      )
      (ap (λ x. some x) r.reads)
