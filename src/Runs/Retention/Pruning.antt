-- ===== src/Runs/Retention/Pruning.antt =====
-- What PruneRuns deletes, and what is left.
use codefort.Base.{
  length, ◌⊎◌, ◌↔◌, ℕ, ◌+◌, ◌≤◌, ◌<◌, ◌≡◌, refl, sym, ap, ◌∙◌, subst, inl, inr, Bool, true, false,
  not, ◌&&◌, ◌||◌, List, [], ◌∷◌, arith, pos, ltb, ◌==◌, nat_eq, nat_beq_iff, Bool-cases, map,
  contains, select, delete, count, All, All-map, least_of, Ascending,
}
use codefort.Runs.{
  RunStatus, queued, running, awaiting_input, finishing, success, failed, canceled, error,
  interrupted, stalled, Run, Store, run_is, numbered, IsOrdered, HasUniqueNumbers,
}
use codefort.Runs.Retention.{is_prunable, newer, prunable, delete_runs, prune_runs}

module _ {A : Type 0} where
  delete-delete :
      (p q : A → Bool) (xs : List A) → delete q (delete p xs) ≡ delete (λ x. p x || q x) xs
  delete-delete p q [] = refl
  delete-delete p q (x ∷ xs) = ground (arith, delete-delete p q xs)

  delete_ext : (p q : A → Bool) (xs : List A) → All (λ x. p x ≡ q x) xs → delete p xs ≡ delete q xs
  delete_ext p q [] h = refl
  delete_ext p q (x ∷ xs) h = ground (arith, delete_ext p q xs h.1, h.0)

  delete_nothing : (xs : List A) → xs ≡ delete (λ x. false) xs
  delete_nothing [] = refl
  delete_nothing (x ∷ xs) = ap (λ ys. x ∷ ys) (delete_nothing xs)

  -- A key of a selected row, in a table of ascending keys, belongs to no other row.
  contains-select :
      (key : A → ℕ) (p : A → Bool) (n : ℕ) (xs : List A)
      → All (λ x. n < key x) xs
      → contains (map key (select p xs)) n ≡ false
  contains-select key p n [] h = refl
  contains-select key p n (x ∷ xs) h =
      ground (arith, contains-select key p n xs h.1, h.0, nat_beq_iff (key x) n)

  add_smaller :
      (key : A → ℕ) (p : A → Bool) (ks : List ℕ) (n : ℕ) (xs : List A)
      → All (λ x. n < key x) xs
      → All (λ x. contains ks (key x) ≡ p x) xs
      → All (λ x. contains (n ∷ ks) (key x) ≡ p x) xs
  add_smaller key p ks n [] l h = tt
  add_smaller key p ks n (x ∷ xs) l h =
      (ground (arith, l.0, h.0, nat_beq_iff (key x) n), add_smaller key p ks n xs l.1 h.1)

  selected_keys :
      (key : A → ℕ) (p : A → Bool) (xs : List A)
      → Ascending key xs
      → All (λ x. contains (map key (select p xs)) (key x) ≡ p x) xs
  selected_keys key p [] h = tt
  selected_keys key p (x ∷ xs) h = elim (Bool-cases (p x)) [
    | inl e ↦
        let ks : select p (x ∷ xs) ≡ x ∷ select p xs = rw e refl in
        subst (λ ys. All (λ y. contains (map key ys) (key y) ≡ p y) (x ∷ xs)) (sym ks)
          (
            ground (arith, e, nat_beq_iff (key x) (key x)),
            add_smaller key p (map key (select p xs)) (key x) xs h.0 (selected_keys key p xs h.1),
          )
    | inr e ↦
        let ks : select p (x ∷ xs) ≡ select p xs = rw e refl in
        subst (λ ys. All (λ y. contains (map key ys) (key y) ≡ p y) (x ∷ xs)) (sym ks)
          (contains-select key p (key x) xs h.0 ∙ sym e, selected_keys key p xs h.1)
  ]

-- The loop deletes the runs of the listed ids and what hangs on them.
delete_runs-runs :
    (ids : List ℕ) (s : Store) → (delete_runs ids s).runs ≡ delete (λ r. contains ids r.id) s.runs
unfolding delete_runs
delete_runs-runs [] s = delete_nothing s.runs
delete_runs-runs (id ∷ ids) s =
    delete_runs-runs ids _ ∙ delete-delete (run_is id) (λ r. contains ids r.id) s.runs

delete_runs-jobs :
    (ids : List ℕ) (s : Store)
    → (delete_runs ids s).jobs ≡ delete (λ j. contains ids j.run_id) s.jobs
unfolding delete_runs
delete_runs-jobs [] s = delete_nothing s.jobs
delete_runs-jobs (id ∷ ids) s =
    delete_runs-jobs ids _ ∙ delete-delete (λ j. j.run_id == id) (λ j. contains ids j.run_id) s.jobs

prune_runs-rows :
    (s : Store) (keep : ℕ)
    → IsOrdered s
    → 0 < keep
    → (prune_runs s (pos keep)).1.runs ≡ delete (prunable s.runs keep) s.runs
unfolding prune_runs
prune_runs-rows s keep o k =
    let on : (keep == 0) ≡ false = ground arith in
    rw on (
      delete_runs-runs (map (λ r. r.id) (select (prunable s.runs keep) s.runs)) s
      ∙ delete_ext _ (prunable s.runs keep) s.runs
          (selected_keys (λ r. r.id) (prunable s.runs keep) s.runs o.0))

count-delete :
    {A : Type 0} (k p : A → Bool) (xs : List A)
    → count k (delete p xs) ≡ count (λ x. k x && not (p x)) xs
count-delete k p [] = refl
count-delete k p (x ∷ xs) = ground (arith, count-delete k p xs)

count_two :
    {A : Type 0} (q a b : A → Bool) (xs : List A)
    → All (λ x. q x ≡ true → (a x || b x) ≡ true) xs
    → count q xs ≤ count a xs + count b xs
count_two q a b [] h = omega arith
count_two q a b (x ∷ xs) h = elim (Bool-cases (q x)) [
  | inl e ↦ ground (arith, h.0 e, count_two q a b xs h.1)
  | inr e ↦ ground (arith, e, count_two q a b xs h.1)
]

-- A run of the repository in one of the four statuses that PruneRuns leaves.
abbrev is_kept : List Run → ℕ → ℕ → Run → Bool
is_kept runs keep repo r = r.repo_id == repo && is_prunable r.status && not (prunable runs keep r)

kept_bound :
    (runs : List Run) (keep repo : ℕ) (m : Run)
    → count (numbered repo m.number) runs ≤ 1
    → is_kept runs keep repo m ≡ true
    → All (λ x. is_kept runs keep repo x ≡ true → m.number ≤ x.number) runs
    → count (is_kept runs keep repo) runs ≤ keep
unfolding prunable
kept_bound runs keep repo m u t l =
    let in_repo : m.repo_id ≡ repo = ground (arith, t, nat_beq_iff m.repo_id repo) in
    let few : newer runs m < keep = ground (arith, t) in
    let split =
      count_two (is_kept runs keep repo) (numbered repo m.number)
        (λ n. n.repo_id == m.repo_id && ltb m.number n.number) runs
        (All-map (λ x. is_kept runs keep repo x ≡ true → m.number ≤ x.number) _ runs
          (λ x g h. ground (
            arith,
            g h,
            h,
            in_repo,
            nat_beq_iff x.repo_id repo,
            nat_beq_iff x.repo_id m.repo_id,
            nat_beq_iff x.number m.number,
          ))
          l) in
    omega (arith, split, few, u)

-- When the rows are in id order, the numbers of each repository are distinct and the limit is
-- positive, no repository has more than that many succeeded, failed, canceled or errored runs after
-- pruning.
pub prune_runs-bounded :
    (s : Store) (keep repo : ℕ)
    → IsOrdered s
    → HasUniqueNumbers s
    → 0 < keep
    → count (λ r. r.repo_id == repo && is_prunable r.status) (prune_runs s (pos keep)).1.runs ≤ keep
prune_runs-bounded s keep repo o u k =
    rw
      (
        prune_runs-rows s keep o k,
        count-delete (λ r. r.repo_id == repo && is_prunable r.status) (prunable s.runs keep) s.runs,
      )
      (elim (least_of (λ r. r.number) (is_kept s.runs keep repo) s.runs) [
        | inl z ↦ ground (arith, z)
        | inr (m, t, l) ↦ kept_bound s.runs keep repo m (u repo m.number) t l
      ])

-- A run that is settled: succeeded, failed, canceled or errored.
abbrev pub IsSettled : RunStatus → Type 0
IsSettled st = (st ≡ success) ⊎ (st ≡ failed) ⊎ (st ≡ canceled) ⊎ (st ≡ error)

-- At least `keep` rows belong to the repository of `r` under higher numbers.
abbrev pub IsOutnumbered : ℕ → List Run → Run → Type 0
IsOutnumbered keep runs r =
    keep ≤ length (select (λ n. n.repo_id == r.repo_id && ltb r.number n.number) runs)

is_prunable_iff : (st : RunStatus) → (is_prunable st ≡ true) ↔ IsSettled st
is_prunable_iff queued = (
  λ h. cc,
  λ h. elim h [ inl e ↦ cc | inr (inl e) ↦ cc | inr (inr (inl e)) ↦ cc | inr (inr (inr e)) ↦ cc ],
)
is_prunable_iff running = (
  λ h. cc,
  λ h. elim h [ inl e ↦ cc | inr (inl e) ↦ cc | inr (inr (inl e)) ↦ cc | inr (inr (inr e)) ↦ cc ],
)
is_prunable_iff awaiting_input = (
  λ h. cc,
  λ h. elim h [ inl e ↦ cc | inr (inl e) ↦ cc | inr (inr (inl e)) ↦ cc | inr (inr (inr e)) ↦ cc ],
)
is_prunable_iff finishing = (
  λ h. cc,
  λ h. elim h [ inl e ↦ cc | inr (inl e) ↦ cc | inr (inr (inl e)) ↦ cc | inr (inr (inr e)) ↦ cc ],
)
is_prunable_iff success = (λ h. inl refl, λ h. refl)
is_prunable_iff failed = (λ h. inr (inl refl), λ h. refl)
is_prunable_iff canceled = (λ h. inr (inr (inl refl)), λ h. refl)
is_prunable_iff error = (λ h. inr (inr (inr refl)), λ h. refl)
is_prunable_iff interrupted = (
  λ h. cc,
  λ h. elim h [ inl e ↦ cc | inr (inl e) ↦ cc | inr (inr (inl e)) ↦ cc | inr (inr (inr e)) ↦ cc ],
)
is_prunable_iff stalled = (
  λ h. cc,
  λ h. elim h [ inl e ↦ cc | inr (inl e) ↦ cc | inr (inr (inl e)) ↦ cc | inr (inr (inr e)) ↦ cc ],
)

length-select : {A : Type 0} (p : A → Bool) (xs : List A) → length (select p xs) ≡ count p xs
length-select p [] = refl
length-select p (x ∷ xs) = ground (arith, length-select p xs)

prunable_iff :
    (keep : ℕ) (runs : List Run) (r : Run)
    → (prunable runs keep r ≡ true) ↔ (IsSettled r.status × IsOutnumbered keep runs r)
unfolding prunable
prunable_iff keep runs r =
    let counted = length-select (λ n. n.repo_id == r.repo_id && ltb r.number n.number) runs in
    (
      λ h. ((is_prunable_iff r.status).0 (ground (arith, h)), ground (arith, h, counted)),
      λ h. ground (arith, (is_prunable_iff r.status).1 h.0, h.1, counted),
    )

-- When the rows are in id order and the limit is positive, pruning deletes exactly the runs that are
-- succeeded, failed, canceled or errored and have at least that many runs with higher numbers in
-- their repository: the rest keeps its rows and their order.
pub prune_runs-exact :
    (s : Store) (keep : ℕ)
    → IsOrdered s
    → 0 < keep
    → (gone : Run → Bool) × ((prune_runs s (pos keep)).1.runs ≡ delete gone s.runs)
      × ((r : Run) → (gone r ≡ true) ↔ (IsSettled r.status × IsOutnumbered keep s.runs r))
prune_runs-exact s keep o k =
    (prunable s.runs keep, prune_runs-rows s keep o k, prunable_iff keep s.runs)
