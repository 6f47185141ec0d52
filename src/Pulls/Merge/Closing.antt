-- ===== src/Pulls/Merge/Closing.antt =====
-- The issues that a merge closes: exactly those that the title or the body names.
use Prim.Native.String.{◌++◌}
use codefort.Base.{
  ◌⊎◌, nat_beq_iff, false, ℕ, false, not, ◌&&◌, Option, none, some, List, [], ◌∷◌, ◌≡◌, refl, ◌∙◌,
  inl, inr, ◌==◌, nat_eq, if◌then◌else◌, Bool-cases, contains, arith,
}
use codefort.Storage.{after}
use codefort.Issues.{done, Issue, Tracker, OtherKey, row_at}
use codefort.Issues.Edit.{update_issue}
use codefort.Issues.Edit.States.{row_at-update_issue, row_at-update_issue_other}
use codefort.Pulls.{Pull}
use codefort.Pulls.Keywords.{codes, closing_matches}
use codefort.Pulls.Keywords.Mentions.{mentions, Names, mentions_iff}
use codefort.Pulls.Merge.{distinct, parse_closing_refs, to_done, close_issues, close_linked_issues}

contains-distinct :
    (ms : List (Option ℕ)) (seen : List ℕ) (n : ℕ)
    → contains (distinct seen ms) n ≡ (mentions ms n && not (contains seen n))
unfolding distinct
contains-distinct [] seen n = refl
contains-distinct (none ∷ ms) seen n = contains-distinct ms seen n
contains-distinct (some m ∷ ms) seen n = elim (Bool-cases (contains seen m)) [
  | inl e ↦ ground (arith, e, contains-distinct ms seen n)
  | inr e ↦ ground (arith, e, contains-distinct ms (m ∷ seen) n)
]

abbrev pub finished : ℕ → Issue → Issue
finished now i = record i { state = done; updated_at = now }

close_issues-row_at :
    (ns : List ℕ) (t : Tracker) (now repo r m : ℕ) (i : Issue)
    → row_at t r m ≡ some i
    → row_at (close_issues t now repo ns) r m
      ≡ some (if r == repo && contains ns m then finished now i else i)
unfolding close_issues
close_issues-row_at [] t now repo r m i e = ground (arith, e)
close_issues-row_at (n ∷ ns) t now repo r m i e =
    let t' = after t (update_issue t now repo n to_done) in
    elim (Bool-cases (r == repo && m == n)) [
      | inl hit ↦
          let here : row_at t repo n ≡ some i = ground (arith, e) in
          let there : row_at t' r m ≡ some (finished now i) =
            ground (arith, row_at-update_issue t now repo n done i here) in
          close_issues-row_at ns t' now repo r m (finished now i) there ∙ ground arith
      | inr miss ↦
          close_issues-row_at ns t' now repo r m i
            (row_at-update_issue_other t now repo n r m done (missed r repo m n miss) ∙ e)
          ∙ ground arith
    ]
  where
    missed : (r repo m n : ℕ) → (r == repo && m == n) ≡ false → OtherKey repo n r m
    missed r repo m n h = elim (Bool-cases (r == repo)) [
      | inl same ↦ inr (λ e. ground (arith, h, same))
      | inr other ↦ inl (λ e. ground (arith, other))
    ]

row_after :
    (t : Tracker) (now repo r m : ℕ) (p : Pull) (i : Issue)
    → row_at t r m ≡ some i
    → row_at (close_linked_issues t now repo p) r m
      ≡ some (
          if r == repo && mentions (closing_matches (p.title ++ (" " ++ p.body))) m
          then finished now i
          else i)
unfolding close_linked_issues parse_closing_refs
row_after t now repo r m p i e =
    close_issues-row_at (parse_closing_refs (p.title ++ (" " ++ p.body))) t now repo r m i e
    ∙ ground (arith, contains-distinct (closing_matches (p.title ++ (" " ++ p.body))) [] m)

-- What closeLinkedIssues makes of an issue. If it belongs to the repository, and the title and the body
-- with a blank between them have, outside a word, one of the seven closing words in either case,
-- blanks, a number sign and the issue's number, the issue is done, with everything but its state and
-- time as it was; otherwise its row is as it was.
pub close_linked_issues-row_at :
    (t : Tracker) (now repo r m : ℕ) (p : Pull) (i : Issue)
    → row_at t r m ≡ some i
    → (((r ≡ repo) × Names false (codes (p.title ++ (" " ++ p.body))) m)
        × (row_at (close_linked_issues t now repo p) r m ≡ some (finished now i)))
      ⊎ ((¬ ((r ≡ repo) × Names false (codes (p.title ++ (" " ++ p.body))) m))
          × (row_at (close_linked_issues t now repo p) r m ≡ some i))
close_linked_issues-row_at t now repo r m p i e =
    let text = p.title ++ (" " ++ p.body) in
    let named = mentions_iff text m in
    elim (Bool-cases (r == repo && mentions (closing_matches text) m)) [
      | inl h ↦ inl (
        ((nat_beq_iff r repo).0 (ground (arith, h)), named.0 (ground (arith, h))),
        row_after t now repo r m p i e ∙ rw h refl,
      )
      | inr h ↦ inr (
        λ n. ground (arith, h, (nat_beq_iff r repo).1 n.0, named.1 n.1),
        row_after t now repo r m p i e ∙ rw h refl,
      )
    ]
