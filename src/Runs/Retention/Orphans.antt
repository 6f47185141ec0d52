-- ===== src/Runs/Retention/Orphans.antt =====
-- What ReconcileOrphanRuns leaves behind.
use codefort.Base.{
  ℕ, ◌≡◌, refl, inl, inr, Bool, true, false, ◌&&◌, ◌||◌, some, List, [], ◌∷◌, arith, nat_eq,
  Bool-cases, if◌then◌else◌, update, All, select_first, select_first-update,
}
use codefort.Runs.{interrupted, Run, Store, run_is, active, is_queued}
use codefort.Runs.Turns.{is_pending, is_turn_running}
use codefort.Runs.Retention.{is_orphan, of_orphan, is_unfinished, reconcile_orphan_runs}

update-All :
    {A : Type 0} (Q : A → Type 0) (p : A → Bool) (f : A → A) (xs : List A)
    → ((x : A) → p x ≡ true → Q (f x))
    → ((x : A) → p x ≡ false → Q x)
    → All Q (update p f xs)
update-All Q p f [] h k = tt
update-All Q p f (x ∷ xs) h k = elim (Bool-cases (p x)) [
  | inl e ↦ rw e (h x e, update-All Q p f xs h k)
  | inr e ↦ rw e (k x e, update-All Q p f xs h k)
]

-- After the startup pass every active run is a queued one, and no queued or running job and no
-- pending or running turn belongs to a run that was running, parked or finishing before.
pub reconcile_orphan_runs-settled :
    (s : Store) (now : ℕ)
    → All (λ r. active r.status ≡ is_queued r.status) (reconcile_orphan_runs s now).1.runs
      × All
          (λ j. of_orphan s.runs j.run_id ≡ true → is_unfinished j.status ≡ false)
          (reconcile_orphan_runs s now).1.jobs
      × All
          (λ t.
            of_orphan s.runs t.run_id ≡ true
            → (is_pending t.status || is_turn_running t.status) ≡ false)
          (reconcile_orphan_runs s now).1.turns
unfolding reconcile_orphan_runs
reconcile_orphan_runs-settled s now = (
  update-All _ is_orphan _ s.runs (λ r h. refl) (λ r h. not_orphan r h),
  update-All _ (λ j. is_unfinished j.status && of_orphan s.runs j.run_id) _ s.jobs (λ j h o. refl)
      (λ j h o. ground arith),
  update-All _ (λ t. (is_pending t.status || is_turn_running t.status) && of_orphan s.runs t.run_id)
      _ s.turns (λ t h o. refl) (λ t h o. ground arith),
)
  where
    not_orphan : (r : Run) → is_orphan r ≡ false → active r.status ≡ is_queued r.status
    not_orphan r h = ground arith

-- The run found under an id is, after the startup pass, as it was if it is queued or over, and
-- otherwise interrupted, with the time of the pass as its finish.
pub reconcile_orphan_runs-row :
    (s : Store) (now id : ℕ) (r : Run)
    → select_first (run_is id) s.runs ≡ some r
    → select_first (run_is id) (reconcile_orphan_runs s now).1.runs
      ≡ some (if is_orphan r then record r { status = interrupted; finished_at = some now } else r)
unfolding reconcile_orphan_runs
reconcile_orphan_runs-row s now id r e =
    select_first-update (run_is id) is_orphan _ s.runs r (λ x. refl) e
