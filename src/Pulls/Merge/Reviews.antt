-- ===== src/Pulls/Merge/Reviews.antt =====
-- The review gate against the reviews of a pull request, in whatever order they are listed.
use codefort.Base.{
  ℕ, suc, ◌<◌, Bool, true, false, ◌&&◌, ◌||◌, none, some, List, [], ◌∷◌, ◌≡◌, refl, sym, ◌∙◌, ◌↔◌,
  ◌⊎◌, inl, inr, nat_eq, Bool-cases, Option-cases, select, exists, arith,
}
use codefort.Pulls.{
  Verdict, approved, changes_requested, Review, Pulls, review_of, insert_newest, newest_first,
  list_reviews,
}
use codefort.Pulls.Merge.{Forge, review_loop, review_gate_blocks}

abbrev pub approves : Verdict → Bool
approves approved = true
approves changes_requested = false

abbrev pub objects : Verdict → Bool
objects approved = false
objects changes_requested = true

exists-insert_newest :
    (q : Review → Bool) (r : Review) (rs : List Review)
    → exists q (insert_newest r rs) ≡ (q r || exists q rs)
unfolding insert_newest
exists-insert_newest q r [] = refl
exists-insert_newest q r (x ∷ xs) = ground (arith, exists-insert_newest q r xs)

exists-newest_first :
    (q : Review → Bool) (rs : List Review) → exists q (newest_first rs) ≡ exists q rs
unfolding newest_first
exists-newest_first q [] = refl
exists-newest_first q (r ∷ rs) =
    ground (arith, exists-insert_newest q r (newest_first rs), exists-newest_first q rs)

exists-select :
    (q p : Review → Bool) (rs : List Review) → exists q (select p rs) ≡ exists (λ r. p r && q r) rs
exists-select q p [] = refl
exists-select q p (r ∷ rs) = ground (arith, exists-select q p rs)

exists-list_reviews :
    (q : Review → Bool) (t : Pulls) (repo number : ℕ)
    → exists q (list_reviews t repo number) ≡ exists (λ r. review_of repo number r && q r) t.reviews
unfolding list_reviews
exists-list_reviews q t repo number =
    exists-newest_first q (select (review_of repo number) t.reviews)
    ∙ exists-select q (review_of repo number) t.reviews

Verdict-cases : (v : Verdict) → (v ≡ approved) ⊎ (v ≡ changes_requested)
Verdict-cases approved = inl refl
Verdict-cases changes_requested = inr refl

review_loop_clear :
    (rs : List Review) (n : ℕ)
    → exists (λ r. objects r.state) rs ≡ false
    → (exists (λ r. approves r.state) rs ≡ true) ⊎ (0 < n)
    → review_loop rs n ≡ none
unfolding review_loop
review_loop_clear [] n h (inl e) = cc
review_loop_clear [] n h (inr e) = ground arith
review_loop_clear (r ∷ rs) n h a = elim (Verdict-cases r.state) [
  | inl yes_vote ↦
      ground (
        arith,
        yes_vote,
        review_loop_clear rs (suc n) (ground (arith, yes_vote)) (inr (omega arith)),
      )
  | inr objection ↦ absurd (ground (arith, objection))
]

review_loop_inv :
    (rs : List Review) (n : ℕ)
    → review_loop rs n ≡ none
    → (exists (λ r. objects r.state) rs ≡ false)
      × ((exists (λ r. approves r.state) rs ≡ true) ⊎ (0 < n))
unfolding review_loop
review_loop_inv [] n h = (refl, inr (ground arith))
review_loop_inv (r ∷ rs) n h = elim (Verdict-cases r.state) [
  | inl yes_vote ↦
      let later = review_loop_inv rs (suc n) (ground (arith, yes_vote)) in
      (ground (arith, yes_vote, later.0), inl (ground (arith, yes_vote)))
  | inr objection ↦ absurd (ground (arith, objection))
]

abbrev pub Approved : Forge → ℕ → ℕ → Type 0
Approved f repo number =
    exists (λ r. review_of repo number r && approves r.state) f.pulls.reviews ≡ true

abbrev pub Objected : Forge → ℕ → ℕ → Type 0
Objected f repo number =
    exists (λ r. review_of repo number r && objects r.state) f.pulls.reviews ≡ true

-- The gate lets a merge through exactly when the repository does not require approval, or requires
-- it and some review of the pull request approves and none requests changes. A repository whose
-- setting cannot be read blocks.
pub review_gate_clear_iff :
    (f : Forge) (repo number : ℕ)
    → (review_gate_blocks f repo number ≡ none) ↔ (
        (f.requires_approval repo ≡ some false)
        ⊎ ((f.requires_approval repo ≡ some true)
            × Approved f repo number
            × (¬ Objected f repo number)))
unfolding review_gate_blocks
review_gate_clear_iff f repo number =
    let approving = exists-list_reviews (λ r. approves r.state) f.pulls repo number in
    let objecting = exists-list_reviews (λ r. objects r.state) f.pulls repo number in
    let reviews = list_reviews f.pulls repo number in
    (
      λ clear. elim (Option-cases (f.requires_approval repo)) [
        | inl e ↦ absurd (ground (arith, e))
        | inr (b, e) ↦ elim (Bool-cases b) [
          | inr free ↦ inl (ground (arith, e, free))
          | inl needed ↦
              let (none_objects, some_approve) =
                review_loop_inv reviews 0 (ground (arith, e, needed, clear)) in
              inr (
                ground (arith, e, needed),
                elim some_approve [ inl a ↦ sym approving ∙ a | inr z ↦ absurd (omega arith) ],
                λ o. ground (arith, o, objecting, none_objects),
              )
        ]
      ],
      λ h. elim h [
        | inl free ↦ ground (arith, free)
        | inr (needed, a, o) ↦ elim (Bool-cases (exists (λ r. objects r.state) reviews)) [
          | inl bad ↦ absurd (o (sym objecting ∙ bad))
          | inr good ↦
              ground (arith, needed, review_loop_clear reviews 0 good (inl (approving ∙ a)))
        ]
      ],
    )
