-- ===== src/Runs/Queue/Claiming.antt =====
-- ClaimNextRunOfKind: who gets which run, and for how long.
use codefort.Base.{
  ℕ, ◌+◌, ◌≤◌, ◌<◌, ◌≡◌, ◌≢◌, refl, sym, ap, ◌∙◌, subst, ◌⊎◌, inl, inr, Bool, true, false, ◌&&◌,
  none, some, List, [], ◌∷◌, arith, ℤ, positive_seconds, ◌==◌, nat_eq, nat_beq_iff, Option-cases,
  All, select_first, update, select_first_test, select_first-update, count_selected,
  select_first-least, select_first-key, Ascending-update, All-update_key,
}
use codefort.Storage.{ok, err, no_run_queued}
use codefort.Runs.{RunKind, Run, Store, run_is, IsOrdered}
use codefort.Runs.Queue.{claimable_run, claim_run_row, claim_next_run_of_kind}

-- The store once run `id` is claimed: its row is stamped, and every other row is as it was.
abbrev pub claimed_store : Store → ℕ → RunKind → ℤ → ℕ → Store
claimed_store s now kind lease id = record s {
  runs = update (λ r. r.id == id && claimable_run lease now kind r) (claim_run_row now) s.runs;
}

-- `r` is the oldest run that can be claimed.
abbrev pub IsOldest : Store → ℕ → RunKind → ℤ → Run → Type 0
IsOldest s now kind lease r =
    (select_first (run_is r.id) s.runs ≡ some r)
    × (claimable_run lease now kind r ≡ true)
    × All (λ x. claimable_run lease now kind x ≡ true → r.id ≤ x.id) s.runs

none_first :
    {A : Type 0} (p : A → Bool) (xs : List A) → select_first p xs ≡ none → All (λ x. p x ≡ false) xs
none_first p [] e = tt
none_first p (x ∷ xs) e = (ground arith, none_first p xs (ground arith))

pub claim_first :
    (s : Store) (now : ℕ) (kind : RunKind) (lease : ℤ)
    → IsOrdered s
    → (All (λ r. claimable_run lease now kind r ≡ false) s.runs
        × (claim_next_run_of_kind s now kind lease ≡ err no_run_queued))
      ⊎ ((r : Run) × IsOldest s now kind lease r
          × (claim_next_run_of_kind s now kind lease
              ≡ ok (claim_run_row now r, claimed_store s now kind lease r.id)))
unfolding claim_next_run_of_kind
claim_first s now kind lease o =
    elim (Option-cases (select_first (claimable_run lease now kind) s.runs)) [
      | inl e ↦ inl (none_first (claimable_run lease now kind) s.runs e, rw e refl)
      | inr (r, e) ↦
          let found_at =
            select_first-key (λ x. x.id) (claimable_run lease now kind) s.runs r o.0 e in
          let can = select_first_test (claimable_run lease now kind) s.runs r e in
          let least =
            select_first-least (λ x. x.id) (claimable_run lease now kind) s.runs r o.0 e in
          inr (
            r,
            (found_at, can, least),
            ground (
              arith,
              e,
              can,
              count_selected (claimable_run lease now kind)
                  (λ x. x.id == r.id && claimable_run lease now kind x) s.runs r e
                  (ground (arith, can, nat_beq_iff r.id r.id)),
            ),
          )
    ]

pub row_claimed :
    (s : Store) (now : ℕ) (kind : RunKind) (lease : ℤ) (r : Run)
    → IsOldest s now kind lease r
    → select_first (run_is r.id) (claimed_store s now kind lease r.id).runs
      ≡ some (claim_run_row now r)
unfolding claim_run_row
row_claimed s now kind lease r (at_id, can, least) =
    select_first-update (run_is r.id) (λ x. x.id == r.id && claimable_run lease now kind x)
      (claim_run_row now) s.runs r (λ x. refl) at_id
    ∙ ground (arith, can, nat_beq_iff r.id r.id)

not_claimable :
    (now now' : ℕ) (kind : RunKind) (lease : ℤ) (r : Run)
    → ((secs : ℕ) → positive_seconds lease ≡ some secs → now' < now + secs)
    → claimable_run lease now' kind (claim_run_row now r) ≡ false
unfolding claim_run_row claimable_run
not_claimable now now' kind lease r live = elim (Option-cases (positive_seconds lease)) [
  | inl e ↦ rw e (ground arith)
  | inr (secs, e) ↦ rw e (ground (arith, live secs e))
]

claimed-IsOrdered :
    (s : Store) (now : ℕ) (kind : RunKind) (lease : ℤ) (id : ℕ)
    → IsOrdered s
    → IsOrdered (claimed_store s now kind lease id)
unfolding claim_run_row
claimed-IsOrdered s now kind lease id o = (
  Ascending-update (λ x. x.id) (λ r. r.id == id && claimable_run lease now kind r)
      (claim_run_row now) s.runs (λ x. refl) o.0,
  All-update_key (λ x. x.id) (λ n. n < s.next_run)
      (λ r. r.id == id && claimable_run lease now kind r) (claim_run_row now) s.runs (λ x. refl)
      o.1,
)

-- What a granted claim was made from.
granted :
    (s s' : Store) (now : ℕ) (kind : RunKind) (lease : ℤ) (r : Run)
    → IsOrdered s
    → claim_next_run_of_kind s now kind lease ≡ ok (r, s')
    → (r₀ : Run) × IsOldest s now kind lease r₀
      × (r ≡ claim_run_row now r₀)
      × (s' ≡ claimed_store s now kind lease r₀.id)
granted s s' now kind lease r o c = elim (claim_first s now kind lease o) [
  | inl (a, e) ↦ cc
  | inr (r₀, old, e) ↦ (r₀, old, cc, cc)
]

-- Two claims never hand out one run while the first claim's lease runs: with the rows in id order,
-- when a second claim succeeds before the lease of the second call has passed since the first
-- claim, it returns another run.
pub claims_exclusive :
    (s s' s'' : Store) (now now' : ℕ) (kind kind' : RunKind) (lease lease' : ℤ) (r r' : Run)
    → IsOrdered s
    → claim_next_run_of_kind s now kind lease ≡ ok (r, s')
    → claim_next_run_of_kind s' now' kind' lease' ≡ ok (r', s'')
    → ((secs : ℕ) → positive_seconds lease' ≡ some secs → now' < now + secs)
    → r'.id ≢ r.id
unfolding claim_run_row
claims_exclusive s s' s'' now now' kind kind' lease lease' r r' o c c' live same =
    let (r₀, old, is_r, is_s) = granted s s' now kind lease r o c in
    let o' : IsOrdered s' =
      subst IsOrdered (sym is_s) (claimed-IsOrdered s now kind lease r₀.id o) in
    let (r₁, old', is_r', is_s') = granted s' s'' now' kind' lease' r' o' c' in
    let one_id : r₁.id ≡ r₀.id = sym (ap (λ x. x.id) is_r') ∙ same ∙ ap (λ x. x.id) is_r in
    let there : select_first (run_is r₀.id) s'.runs ≡ some (claim_run_row now r₀) =
      ap (λ x. select_first (run_is r₀.id) x.runs) is_s ∙ row_claimed s now kind lease r₀ old in
    let there' : select_first (run_is r₀.id) s'.runs ≡ some r₁ =
      subst (λ n. select_first (run_is n) s'.runs ≡ some r₁) one_id old'.0 in
    let row : r₁ ≡ claim_run_row now r₀ = cc in
    let dead : claimable_run lease' now' kind' r₁ ≡ false =
      ap (claimable_run lease' now' kind') row ∙ not_claimable now now' kind' lease' r₀ live in
    ground (arith, dead, old'.1)
