-- ===== src/Runs/Queue/Numbering.antt =====
-- EnqueueRun: the per-repository run numbers, and the order of the rows.
use codefort.Base.{
  ℕ, suc, ◌≤◌, ◌<◌, ◌≡◌, sym, inl, inr, List, [], ◌∷◌, ◌++◌, arith, ◌==◌, nat_eq, nat_beq_iff,
  Bool-cases, All-append, All-map, count, count-append, count_above, Ascending-append,
}
use codefort.Runs.{Run, Store, numbered, IsOrdered, HasUniqueNumbers}
use codefort.Runs.Queue.{NewRun, next_run_number, enqueue_run}

numbered_next : (s : Store) (repo : ℕ) → count (numbered repo (next_run_number s repo)) s.runs ≡ 0
numbered_next s repo =
    count_above (λ r. r.repo_id == repo) (numbered repo (next_run_number s repo)) (λ r. r.number)
      (next_run_number s repo) s.runs
      (λ x h.
        ground (arith, nat_beq_iff x.repo_id repo, nat_beq_iff x.number (next_run_number s repo)))
      (omega arith)

append_unique :
    (runs : List Run) (row : Run)
    → ((r n : ℕ) → count (numbered r n) runs ≤ 1)
    → count (numbered row.repo_id row.number) runs ≡ 0
    → (r n : ℕ) → count (numbered r n) (runs ++ row ∷ []) ≤ 1
append_unique runs row u free r n = elim (Bool-cases (numbered r n row)) [
  | inr e ↦ ground (arith, u r n, e, count-append (numbered r n) runs (row ∷ []))
  | inl e ↦
      let same_repo : row.repo_id ≡ r = ground (arith, nat_beq_iff row.repo_id r, e) in
      let same_number : row.number ≡ n = ground (arith, nat_beq_iff row.number n, e) in
      let none_here : count (numbered r n) runs ≡ 0 = rw (sym same_repo, sym same_number) free in
      ground (arith, e, none_here, count-append (numbered r n) runs (row ∷ []))
]

-- A run is enqueued under the next number of its repository, which no run there has; the rows stay
-- in id order and the numbers of each repository stay distinct.
pub enqueue_run_fresh :
    (s : Store) (now repo : ℕ) (req : NewRun)
    → IsOrdered s
    → HasUniqueNumbers s
    → (count (numbered repo (enqueue_run s now repo req).0.number) s.runs ≡ 0)
      × IsOrdered (enqueue_run s now repo req).1
      × HasUniqueNumbers (enqueue_run s now repo req).1
unfolding enqueue_run
enqueue_run_fresh s now repo req o u = (
  numbered_next s repo,
  (
    Ascending-append (λ r. r.id) s.runs (enqueue_run s now repo req).0 o.0 o.1,
    All-append (λ r. r.id < suc s.next_run) s.runs ((enqueue_run s now repo req).0 ∷ [])
        (All-map (λ r. r.id < s.next_run) (λ r. r.id < suc s.next_run) s.runs
          (λ x l. omega (arith, l)) o.1)
        (omega arith, tt),
  ),
  append_unique s.runs (enqueue_run s now repo req).0 u (numbered_next s repo),
)
