-- ===== src/Cron.antt =====
-- cmd/codefortd/cron_scheduler.go, and the table cron_schedules of internal/storage/ci.go. Times are
-- whole seconds, as an occurrence of a cron expression is. robfig/cron's parser is a parameter: for a
-- valid expression the first occurrence after a time in its location, none when there is none, which is Go's zero
-- time.
pub mod Syncing
pub mod Firing
pub mod Examples
use codefort.Base.{
  ℕ, suc, ◌-◌, String, Bool, true, false, not, ◌&&◌, Option, none, some, List, [], ◌∷◌, ◌++◌, ◌==◌,
  nat_eq, string_eq, if◌then◌else◌, leb, ltb, select, update, delete, exists, contains,
}
use codefort.Runs.{Store}
use codefort.Runs.Queue.{NewRun, enqueue_run}

pub record CronSchedule : Type 0 where
  pub id : ℕ
  pub repo_id : ℕ
  pub cron_expr : String
  pub last_fired_at : Option ℕ

pub record Schedules : Type 0 where
  pub rows : List CronSchedule
  pub next_id : ℕ

-- The key that is UNIQUE in the table.
abbrev pub row_of : ℕ → String → CronSchedule → Bool
row_of repo expr s = s.repo_id == repo && s.cron_expr == expr

-- DELETE … WHERE repo_id = ? AND cron_expr NOT IN (…)
abbrev pub undeclared : ℕ → List String → CronSchedule → Bool
undeclared repo exprs s = s.repo_id == repo && not (contains exprs s.cron_expr)

-- INSERT OR IGNORE
pub insert_schedule : Schedules → ℕ → String → Schedules
insert_schedule t repo expr = if exists (row_of repo expr) t.rows then t else record {
  rows =
      t.rows
      ++ record { id = t.next_id; repo_id = repo; cron_expr = expr; last_fired_at = none } ∷ [];
  next_id = suc t.next_id;
}

pub insert_schedules : Schedules → ℕ → List String → Schedules
unfolding insert_schedule
insert_schedules t repo [] = t
insert_schedules t repo (e ∷ es) = insert_schedules (insert_schedule t repo e) repo es

pub upsert_cron_schedules : Schedules → ℕ → List String → Schedules
unfolding insert_schedules
upsert_cron_schedules t repo exprs =
    insert_schedules (record t { rows = delete (undeclared repo exprs) t.rows }) repo exprs

-- In id order, which the query leaves open.
pub list_cron_schedules : Schedules → ℕ → List CronSchedule
list_cron_schedules t repo = select (λ s. s.repo_id == repo) t.rows

abbrev fired : ℕ → CronSchedule → CronSchedule
fired now s = record s { last_fired_at = some now }

pub update_cron_last_fired : Schedules → ℕ → ℕ → Schedules
update_cron_last_fired t id now = record t { rows = update (λ s. s.id == id) (fired now) t.rows }

-- cronTickInterval
abbrev pub cron_tick_interval : ℕ
cron_tick_interval = 30

-- The commit at HEAD, with empty texts where git does not tell its subject and author.
pub record Head : Type 0 where
  pub sha : String
  pub message : String
  pub author : String

abbrev pub scheduled_run : Head → String → NewRun
scheduled_run head expr = record {
  kind = none;
  issue_number = none;
  execution_model = "";
  tool_profile = "";
  spec_path = "";
  commit_sha = head.sha;
  commit_msg = head.message;
  commit_author = head.author;
  ref = "refs/heads/HEAD";
  event = "schedule";
  trigger = expr;
}

-- What the bare repository has at HEAD: no commit, a pipeline that cannot be read, none, one that does
-- not parse, or one with its On.Schedule.
pub data Pipeline : Type 0 where
  no_commit unreadable no_pipeline : Pipeline
  broken_pipeline : Head → Pipeline
  on_schedule : Head → List String → Pipeline

abbrev pub Database : Type 0
Database = Store × Schedules

-- The location of a time, in which robfig/cron reads the fields of an expression: the server's for the
-- ticker's time, UTC for the one that nullTime makes.
pub data Zone : Type 0 where
  local_time utc : Zone

-- from in maybeFire
abbrev pub fire_from : ℕ → Option ℕ → Zone × ℕ
fire_from now none = (local_time, now - cron_tick_interval)
fire_from now (some t) = (utc, t)

-- not next.After(now); the zero time is not after any.
abbrev pub is_due : ℕ → Option ℕ → Bool
is_due now none = true
is_due now (some next) = leb next now

module _ (parse_standard : String → Option (Zone × ℕ → Option ℕ)) where
  pub fire : Database → ℕ → ℕ → Head → CronSchedule → Bool → Bool × Database
  unfolding update_cron_last_fired
  fire (runs, t) now repo head s false = (false, (runs, t))
  fire (runs, t) now repo head s true = (
    true,
    (
      (enqueue_run runs now repo (scheduled_run head s.cron_expr)).1,
      update_cron_last_fired t s.id now,
    ),
  )

  pub due : ℕ → CronSchedule → Bool
  due now s = elim (parse_standard s.cron_expr) [
    | none ↦ false
    | some next ↦ is_due now (next (fire_from now s.last_fired_at))
  ]

  pub maybe_fire : Database → ℕ → ℕ → Head → CronSchedule → Bool × Database
  unfolding fire due
  maybe_fire d now repo head s = fire d now repo head s (due now s)

  pub fire_each : Database → ℕ → ℕ → Head → List CronSchedule → Database
  unfolding maybe_fire
  fire_each d now repo head [] = d
  fire_each d now repo head (s ∷ ss) = fire_each (maybe_fire d now repo head s).1 now repo head ss

  pub process_repo_cron : Database → ℕ → ℕ → Pipeline → Database
  unfolding upsert_cron_schedules list_cron_schedules fire_each
  process_repo_cron d now repo no_commit = d
  process_repo_cron d now repo unreadable = d
  process_repo_cron (runs, t) now repo no_pipeline = (runs, upsert_cron_schedules t repo [])
  process_repo_cron d now repo (broken_pipeline head) = d
  process_repo_cron (runs, t) now repo (on_schedule head exprs) =
      let synced = upsert_cron_schedules t repo exprs in
      fire_each (runs, synced) now repo head (list_cron_schedules synced repo)

  -- A repository with its ci_enabled and what its HEAD has.
  pub tick_cron_scheduler : Database → ℕ → List (ℕ × Bool × Pipeline) → Database
  unfolding process_repo_cron
  tick_cron_scheduler d now [] = d
  tick_cron_scheduler d now ((repo, false, p) ∷ rs) = tick_cron_scheduler d now rs
  tick_cron_scheduler d now ((repo, true, p) ∷ rs) =
      tick_cron_scheduler (process_repo_cron d now repo p) now rs
