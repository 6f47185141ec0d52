-- ===== src/Cron/Firing.antt =====
-- Successive calls of maybeFire for one schedule, each with its row as it then is.
use codefort.Base.{
  ℕ, ◌+◌, ◌<◌, String, true, false, Option, none, some, List, [], ◌∷◌, ◌≡◌, refl, ◌∙◌, ap, arith,
  select_first, All, length, length-append, select_first-update, ◌==◌, nat_eq, nat_beq_iff,
  if◌then◌else◌,
}
use codefort.Runs.Queue.{enqueue_run}
use codefort.Cron.{
  Zone, utc, CronSchedule, Head, Database, fire_from, is_due, scheduled_run, fired,
  update_cron_last_fired, maybe_fire, due, fire,
}

abbrev pub row_at : ℕ → Database → Option CronSchedule
row_at id d = select_first (λ s. s.id == id) d.1.rows

module _ (parse_standard : String → Option (Zone × ℕ → Option ℕ)) (repo : ℕ) (head : Head) where
  abbrev pub visit_row : ℕ → Database → Option CronSchedule → Database
  visit_row now d none = d
  visit_row now d (some s) = (maybe_fire parse_standard d now repo head s).1

  abbrev pub visit : ℕ → ℕ → Database → Database
  visit id now d = visit_row now d (row_at id d)

  abbrev pub visits : ℕ → List ℕ → Database → Database
  visits id [] d = d
  visits id (t ∷ ts) d = visits id ts (visit id t d)

  -- A firing adds one run and stamps the row.
  fire-row :
      (d : Database) (now : ℕ) (s : CronSchedule)
      → row_at s.id d ≡ some s
      → due parse_standard now s ≡ true
      → (row_at s.id (visit s.id now d) ≡ some (fired now s))
        × (length (visit s.id now d).0.runs ≡ length d.0.runs + 1)
  unfolding maybe_fire fire update_cron_last_fired enqueue_run
  fire-row (runs, t) now s e h =
      let own : (s.id == s.id) ≡ true = (nat_beq_iff s.id s.id).1 refl in
      let stamp : (if s.id == s.id then fired now s else s) ≡ fired now s = rw own refl in
      rw (visit, e, visit_row, maybe_fire, h)
        (
          select_first-update (λ x. x.id == s.id) (λ x. x.id == s.id) (fired now) t.rows s
                (λ x. refl) e
              ∙ ap (λ x. some x) stamp,
          length-append runs.runs
              ((enqueue_run runs now repo (scheduled_run head s.cron_expr)).0 ∷ []),
        )

  quiet :
      (d : Database) (later : ℕ) (s : CronSchedule)
      → row_at s.id d ≡ some s
      → due parse_standard later s ≡ false
      → visit s.id later d ≡ d
  unfolding maybe_fire fire
  quiet d later s e h = rw (visit, e, visit_row, maybe_fire, h) refl

  visits-quiet :
      (d : Database) (s : CronSchedule) (ts : List ℕ)
      → row_at s.id d ≡ some s
      → All (λ t. due parse_standard t s ≡ false) ts
      → visits s.id ts d ≡ d
  visits-quiet d s [] e h = refl
  visits-quiet d s (t ∷ ts) e h = rw (quiet d t s e h.0) (visits-quiet d s ts e h.1)

  due-fired :
      (s : CronSchedule) (next : Zone × ℕ → Option ℕ) (now t : ℕ)
      → parse_standard s.cron_expr ≡ some next
      → due parse_standard t (fired now s) ≡ is_due t (next (utc, now))
  unfolding due
  due-fired s next now t p = rw (due, p) refl

  not_due :
      (s : CronSchedule) (next : Zone × ℕ → Option ℕ) (now n : ℕ) (ts : List ℕ)
      → parse_standard s.cron_expr ≡ some next
      → next (utc, now) ≡ some n
      → All (λ t. t < n) ts
      → All (λ t. due parse_standard t (fired now s) ≡ false) ts
  not_due s next now n [] p o b = tt
  not_due s next now n (t ∷ ts) p o b =
      (due-fired s next now t p ∙ rw o (ground (arith, b.0)), not_due s next now n ts p o b.1)

  never_due :
      (s : CronSchedule) (next : Zone × ℕ → Option ℕ) (t : ℕ)
      → parse_standard s.cron_expr ≡ some next
      → ((t : Zone × ℕ) → next t ≡ none)
      → due parse_standard t s ≡ true
  unfolding due
  never_due s next t p o = rw (due, p, o (fire_from t s.last_fired_at)) refl

  -- A call of maybeFire that finds a schedule due enqueues one run and stamps the schedule. The calls
  -- for this schedule that follow, each with the row as it then is, change nothing as long as they
  -- come before the first occurrence of the expression, read in UTC, after the stamp.
  pub fires_once :
      (d : Database) (now n : ℕ) (s : CronSchedule) (next : Zone × ℕ → Option ℕ) (ts : List ℕ)
      → row_at s.id d ≡ some s
      → due parse_standard now s ≡ true
      → parse_standard s.cron_expr ≡ some next
      → next (utc, now) ≡ some n
      → All (λ t. t < n) ts
      → (row_at s.id (visits s.id (now ∷ ts) d) ≡ some (record s { last_fired_at = some now }))
        × (visits s.id (now ∷ ts) d ≡ visit s.id now d)
        × (length (visits s.id (now ∷ ts) d).0.runs ≡ length d.0.runs + 1)
  fires_once d now n s next ts e h p o b =
      let (row, grown) = fire-row d now s e h in
      let same : visits s.id (now ∷ ts) d ≡ visit s.id now d =
        visits-quiet (visit s.id now d) (fired now s) ts row (not_due s next now n ts p o b) in
      (rw same row, same, rw same grown)

  -- A schedule whose expression never occurs is due at every call of maybeFire: each of them enqueues a
  -- run.
  pub never_occurs_fires_always :
      (d : Database) (s : CronSchedule) (next : Zone × ℕ → Option ℕ) (ts : List ℕ)
      → row_at s.id d ≡ some s
      → parse_standard s.cron_expr ≡ some next
      → ((t : Zone × ℕ) → next t ≡ none)
      → length (visits s.id ts d).0.runs ≡ length d.0.runs + length ts
  never_occurs_fires_always d s next [] e p o = omega arith
  never_occurs_fires_always d s next (t ∷ ts) e p o =
      let (row, grown) = fire-row d t s e (never_due s next t p o) in
      omega (arith, grown, never_occurs_fires_always (visit s.id t d) (fired t s) next ts row p o)
