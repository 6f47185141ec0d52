-- ===== src/Pulls/Keywords.antt =====
-- closingRefsRE of internal/server/merge.go, (?i)\b(?:closes?|fixed?|fixes?|resolves?)\s+#(\d+), as a
-- matcher on the code points of a text. A match cannot start inside another, since its keyword starts
-- at a word boundary, so that FindAll finds a match at every place where one starts.
pub mod Meaning
pub mod Mentions
use Prim.Native.Char.{code}
use codefort.Base.{
  ℕ, ◌+◌, ◌-◌, ◌*◌, String, Bool, false, ◌&&◌, ◌||◌, Option, none, some, List, [], ◌∷◌, ◌==◌,
  nat_eq, if◌then◌else◌, leb, ltb, ◌≡◌, refl,
}

pub codes : String → List ℕ
codes String.[] = []
codes (String.◌∷◌ c s) = code c ∷ codes s

-- (?i): the letter's lower case, with the long s that Go folds to s.
abbrev pub fold : ℕ → ℕ
fold c = if leb 65 c && leb c 90 then c + 32 else if c == 383 then 115 else c

-- \w, \s and \d of Go, which are ASCII
abbrev pub is_digit : ℕ → Bool
is_digit c = leb 48 c && leb c 57

abbrev pub is_word : ℕ → Bool
is_word c = is_digit c || leb 65 c && leb c 90 || leb 97 c && leb c 122 || c == 95

abbrev pub is_space : ℕ → Bool
is_space c = c == 9 || c == 10 || c == 12 || c == 13 || c == 32

-- What follows a keyword.
pub after_keyword : List ℕ → List ℕ → Option (List ℕ)
after_keyword [] s = some s
after_keyword (k ∷ ks) [] = none
after_keyword (k ∷ ks) (c ∷ s) = let rest = after_keyword ks s in if fold c == k then rest else none

pub skip_spaces : List ℕ → List ℕ
skip_spaces [] = []
skip_spaces (c ∷ s) = let rest = skip_spaces s in if is_space c then rest else c ∷ s

pub digits : List ℕ → List ℕ
digits [] = []
digits (c ∷ s) = let rest = digits s in if is_digit c then c ∷ rest else []

abbrev decimal : ℕ → List ℕ → ℕ
decimal n [] = n
decimal n (c ∷ s) = decimal (n * 10 + (c - 48)) s

-- strconv.Atoi of a text of digits: an error when the number is no int64.
pub atoi : List ℕ → Option ℕ
atoi ds = if ltb (decimal 0 ds) 9_223_372_036_854_775_808 then some (decimal 0 ds) else none

-- #(\d+)
pub numbered : List ℕ → Option (Option ℕ)
unfolding digits atoi
numbered [] = none
numbered (c ∷ s) = elim (digits s) [
  | [] ↦ none
  | d ∷ ds ↦ if c == 35 then some (atoi (d ∷ ds)) else none
]

-- \s+ and the number
pub spaced : Option (List ℕ) → Option (Option ℕ)
unfolding skip_spaces numbered
spaced none = none
spaced (some []) = none
spaced (some (c ∷ s)) = if is_space c then numbered (skip_spaces s) else none

abbrev pub keywords : List String
keywords = "closes" ∷ "close" ∷ "fixed" ∷ "fixe" ∷ "fixes" ∷ "resolves" ∷ "resolve" ∷ []

pub match_any : List String → List ℕ → Option (Option ℕ)
unfolding spaced after_keyword codes
match_any [] s = none
match_any (k ∷ ks) s = elim (spaced (after_keyword (codes k) s)) [
  | none ↦ match_any ks s
  | some n ↦ some n
]

-- The matches in a text whose previous code point is a word's or not.
pub matches_from : Bool → List ℕ → List (Option ℕ)
unfolding match_any
matches_from in_word [] = []
matches_from in_word (c ∷ s) =
    let rest = matches_from (is_word c) s in
    if in_word then rest else elim (match_any keywords (c ∷ s)) [ none ↦ rest | some n ↦ n ∷ rest ]

-- The numbers of all matches in order, as strconv.Atoi reads them.
unfoldable pub closing_matches : String → List (Option ℕ)
unfolding codes matches_from
closing_matches text = matches_from false (codes text)

some_match : closing_matches "Closes #9, FIXED\t #12; resolve #x" ≡ some 9 ∷ some 12 ∷ []
unfolding closing_matches
some_match = refl

no_match : closing_matches "fix #3, closed #4, encloses #5, closes#6" ≡ []
unfolding closing_matches
no_match = refl
