-- ===== src/Cron/Examples.antt =====
-- Examples for the cron scheduler, with a parser of two expressions: one that occurs at every multiple
-- of a hundred seconds below a thousand, and one that never does.
use codefort.Base.{
  Bool-cases, inl, inr, eq_iff, count, ◌≤◌, ℕ, ◌+◌, String, true, Option, none, some, List, [], ◌∷◌,
  ◌≡◌, refl, arith, length, if◌then◌else◌, ◌==◌, string_eq, nat_eq, ltb, contains,
}
use codefort.Runs.{Store}
use codefort.Cron.{
  Zone, row_of, CronSchedule, Schedules, Head, no_pipeline, upsert_cron_schedules,
  tick_cron_scheduler, due,
}
use codefort.Cron.Syncing.{known, kept, OneEach, upsert_cron_schedules-known}
use codefort.Cron.Firing.{row_at, visits, visit, fires_once, never_occurs_fires_always}

abbrev by_hundreds : Zone × ℕ → Option ℕ
by_hundreds (z, t) = if ltb t 100 then some 100 else if ltb t 200 then some 200 else some 1000

abbrev parse_standard : String → Option (Zone × ℕ → Option ℕ)
parse_standard e =
    if e == "@hundred"
    then some by_hundreds
    else if e == "0 0 30 2 *"
    then some (λ t. none)
    else none

abbrev head : Head
head = record { sha = "abc"; message = "first"; author = "ann" }

abbrev repo : ℕ
repo = 5

abbrev declared : List String
declared = "@hundred" ∷ "@daily" ∷ []

abbrev later_ticks : List ℕ
later_ticks = 120 ∷ 150 ∷ []

abbrev hundred : CronSchedule
hundred = record { id = 1; repo_id = 5; cron_expr = "@hundred"; last_fired_at = some 10 }

abbrev leap : CronSchedule
leap = record { id = 2; repo_id = 5; cron_expr = "0 0 30 2 *"; last_fired_at = none }

abbrev table : Schedules
table = record { rows = hundred ∷ leap ∷ []; next_id = 3 }

abbrev no_runs : Store
no_runs = record { runs = []; jobs = []; turns = []; next_run = 1; next_job = 1; next_turn = 1 }

table-OneEach : OneEach table.rows
table-OneEach r x = elim (Bool-cases ("@hundred" == x)) [
  | inl h ↦ rw (← (eq_iff "@hundred" x).0 h) (ground arith)
  | inr h ↦ ground (arith, h)
]

upsert_cron_schedules-known_example :
    (known (upsert_cron_schedules table repo declared).rows repo "@hundred" ≡ (
      if repo == repo
      then (if contains declared "@hundred" then kept (known table.rows repo "@hundred") else none)
      else known table.rows repo "@hundred"))
    × (count (row_of repo "@hundred") (upsert_cron_schedules table repo declared).rows ≤ 1)
upsert_cron_schedules-known_example =
    upsert_cron_schedules-known table repo declared table-OneEach repo "@hundred"

hundred-due : due parse_standard 120 hundred ≡ true
unfolding due
hundred-due = refl

fires_once_example :
    (row_at 1 (visits parse_standard 5 head 1 (120 ∷ 150 ∷ 180 ∷ []) (no_runs, table))
      ≡ some (record hundred { last_fired_at = some 120 }))
    × (visits parse_standard 5 head 1 (120 ∷ 150 ∷ 180 ∷ []) (no_runs, table)
        ≡ visit parse_standard 5 head 1 120 (no_runs, table))
    × (length (visits parse_standard 5 head 1 (120 ∷ 150 ∷ 180 ∷ []) (no_runs, table)).0.runs
        ≡ 0 + 1)
fires_once_example =
    fires_once parse_standard 5 head (no_runs, table) 120 200 hundred by_hundreds (150 ∷ 180 ∷ [])
      refl hundred-due refl refl (omega arith, (omega arith, tt))

never_occurs_fires_always_example :
    length (visits parse_standard 5 head 2 later_ticks (no_runs, table)).0.runs
    ≡ 0 + length later_ticks
never_occurs_fires_always_example =
    never_occurs_fires_always parse_standard 5 head (no_runs, table) leap (λ t. none) later_ticks
      refl refl (λ t. refl)

-- A tick over a repository whose pipeline is gone drops its schedules.
gone_pipeline :
    (tick_cron_scheduler parse_standard (no_runs, table) 120 ((5, true, no_pipeline) ∷ [])).1.rows
    ≡ []
unfolding tick_cron_scheduler
gone_pipeline = refl
