-- ===== src/Cron/Syncing.antt =====
-- UpsertCronSchedules against the set of schedules that a repository declares.
use codefort.Base.{
  count, count-append, ◌≤◌, ℕ, String, Bool, true, false, not, ◌&&◌, ◌||◌, Option, none, some, List,
  [], ◌∷◌, ◌++◌, ◌==◌, nat_eq, string_eq, eq_iff, nat_beq_iff, if◌then◌else◌, select_first, delete,
  exists, contains, ◌≡◌, refl, sym, arith, Bool-cases, Option-cases, inl, inr, exists_of_none,
  select_first-append, select_first-append_none,
}
use codefort.Cron.{
  CronSchedule, Schedules, row_of, undeclared, insert_schedule, insert_schedules,
  upsert_cron_schedules,
}

-- Whether a repository has the expression, and when it fired last.
abbrev last_of : Option CronSchedule → Option (Option ℕ)
last_of none = none
last_of (some s) = some s.last_fired_at

abbrev pub known : List CronSchedule → ℕ → String → Option (Option ℕ)
known rows repo expr = last_of (select_first (row_of repo expr) rows)

-- A declared expression keeps its time, or has none yet.
abbrev pub kept : Option (Option ℕ) → Option (Option ℕ)
kept none = some none
kept (some f) = some f

row_key :
    (s : CronSchedule) (r : ℕ) (x : String)
    → row_of r x s ≡ true
    → (s.repo_id ≡ r) × (s.cron_expr ≡ x)
row_key s r x h =
    (ground (arith, nat_beq_iff s.repo_id r, h), (eq_iff s.cron_expr x).0 (ground (arith, h)))

known-delete :
    (repo : ℕ) (exprs : List String) (rows : List CronSchedule) (r : ℕ) (x : String)
    → known (delete (undeclared repo exprs) rows) r x
      ≡ (if r == repo && not (contains exprs x) then none else known rows r x)
known-delete repo exprs [] r x = ground arith
known-delete repo exprs (s ∷ rows) r x = elim (Bool-cases (row_of r x s)) [
  | inl h ↦
      let u : undeclared repo exprs s ≡ (r == repo && not (contains exprs x)) =
        rw ((row_key s r x h).0, (row_key s r x h).1) refl in
      ground (arith, h, u, known-delete repo exprs rows r x)
  | inr h ↦ ground (arith, h, known-delete repo exprs rows r x)
]

known-append :
    (rows : List CronSchedule) (s : CronSchedule) (r : ℕ) (x : String)
    → s.last_fired_at ≡ none
    → exists (row_of s.repo_id s.cron_expr) rows ≡ false
    → known (rows ++ s ∷ []) r x ≡ (if row_of r x s then kept (known rows r x) else known rows r x)
known-append rows s r x n h = elim (Option-cases (select_first (row_of r x) rows)) [
  | inr (a, e) ↦ rw (known, select_first-append (row_of r x) rows (s ∷ []) a e, e) (ground arith)
  | inl e ↦ rw (known, select_first-append_none (row_of r x) rows (s ∷ []) e, e) (ground (arith, n))
]

known_row :
    (rows : List CronSchedule) (repo : ℕ) (e : String)
    → exists (row_of repo e) rows ≡ true
    → kept (known rows repo e) ≡ known rows repo e
known_row rows repo e h = elim (Option-cases (select_first (row_of repo e) rows)) [
  | inr (a, k) ↦ rw (kept, known, k) refl
  | inl k ↦ ground (arith, h, exists_of_none (row_of repo e) rows k)
]

same_key : (repo r : ℕ) (e x : String) → (repo == r && e == x) ≡ true → (repo ≡ r) × (e ≡ x)
same_key repo r e x h = (ground (arith, nat_beq_iff repo r, h), (eq_iff e x).0 (ground (arith, h)))

known-insert :
    (t : Schedules) (repo : ℕ) (e : String) (r : ℕ) (x : String)
    → known (insert_schedule t repo e).rows r x
      ≡ (if repo == r && e == x then kept (known t.rows r x) else known t.rows r x)
unfolding insert_schedule
known-insert t repo e r x = elim (Bool-cases (exists (row_of repo e) t.rows)) [
  | inr h ↦ rw h (
      known-append t.rows
        (record { id = t.next_id; repo_id = repo; cron_expr = e; last_fired_at = none }) r x refl h)
  | inl h ↦ rw h (elim (Bool-cases (repo == r && e == x)) [
    | inr d ↦ rw d refl
    | inl d ↦
        rw (d, sym (same_key repo r e x d).0, sym (same_key repo r e x d).1)
          (sym (known_row t.rows repo e h))
  ])
]

kept_once : (o : Option (Option ℕ)) → kept (kept o) ≡ kept o
kept_once none = refl
kept_once (some f) = refl

kept_either :
    (b c d : Bool) (o : Option (Option ℕ))
    → (if b && d then kept (if b && c then kept o else o) else if b && c then kept o else o)
      ≡ (if b && (c || d) then kept o else o)
kept_either false c d o = ground arith
kept_either true true true o = kept_once o
kept_either true true false o = refl
kept_either true false d o = refl

text_sym : (x e : String) → (x == e) ≡ (e == x)
text_sym x e = elim (Bool-cases (x == e)) [
  | inl h ↦ rw ((eq_iff x e).0 h) refl
  | inr h ↦ ground (arith, h, eq_iff x e, eq_iff e x, λ (k : e ≡ x). sym k)
]

known-inserts :
    (t : Schedules) (repo : ℕ) (es : List String) (r : ℕ) (x : String)
    → known (insert_schedules t repo es).rows r x
      ≡ (if repo == r && contains es x then kept (known t.rows r x) else known t.rows r x)
unfolding insert_schedules
known-inserts t repo [] r x = ground arith
known-inserts t repo (e ∷ es) r x =
    rw
      (
        known-inserts (insert_schedule t repo e) repo es r x,
        known-insert t repo e r x,
        text_sym x e,
      )
      (kept_either (repo == r) (e == x) (contains es x) (known t.rows r x))

-- The UNIQUE constraint of the table.
abbrev pub OneEach : List CronSchedule → Type 0
OneEach rows = (r : ℕ) (x : String) → count (row_of r x) rows ≤ 1

count_absent :
    (p : CronSchedule → Bool) (rows : List CronSchedule) → exists p rows ≡ false → count p rows ≡ 0
count_absent p [] h = refl
count_absent p (s ∷ rows) h = ground (arith, count_absent p rows)

delete-OneEach :
    (p : CronSchedule → Bool) (rows : List CronSchedule) (r : ℕ) (x : String)
    → count (row_of r x) (delete p rows) ≤ count (row_of r x) rows
delete-OneEach p [] r x = omega arith
delete-OneEach p (s ∷ rows) r x = ground (arith, delete-OneEach p rows r x)

insert_schedule-OneEach :
    (t : Schedules) (repo : ℕ) (e : String)
    → OneEach t.rows
    → OneEach (insert_schedule t repo e).rows
unfolding insert_schedule
insert_schedule-OneEach t repo e u r x = elim (Bool-cases (exists (row_of repo e) t.rows)) [
  | inl h ↦ rw h (u r x)
  | inr h ↦
      let fresh : CronSchedule = record {
        id = t.next_id;
        repo_id = repo;
        cron_expr = e;
        last_fired_at = none;
      } in
      let added = count-append (row_of r x) t.rows (fresh ∷ []) in
      elim (Bool-cases (repo == r && e == x)) [
        | inr d ↦ rw h (ground (arith, u r x, added, d))
        | inl d ↦
            let absent : count (row_of r x) t.rows ≡ 0 =
              rw (← (same_key repo r e x d).0, ← (same_key repo r e x d).1)
                (count_absent (row_of repo e) t.rows h) in
            rw h (ground (arith, absent, added, d))
      ]
]

insert_schedules-OneEach :
    (t : Schedules) (repo : ℕ) (es : List String)
    → OneEach t.rows
    → OneEach (insert_schedules t repo es).rows
unfolding insert_schedules
insert_schedules-OneEach t repo [] u = u
insert_schedules-OneEach t repo (e ∷ es) u =
    insert_schedules-OneEach (insert_schedule t repo e) repo es (insert_schedule-OneEach t repo e u)

-- A sync of a table with one row at most for each repository and expression leaves one row at most for
-- each. The repository has then exactly the declared expressions, each with the time at which it fired
-- last if it was there before and with none otherwise; the schedules of other repositories are as they
-- were.
pub upsert_cron_schedules-known :
    (t : Schedules) (repo : ℕ) (exprs : List String)
    → OneEach t.rows
    → (r : ℕ) (x : String)
    → (known (upsert_cron_schedules t repo exprs).rows r x ≡ (
        if repo == r
        then (if contains exprs x then kept (known t.rows r x) else none)
        else known t.rows r x))
      × (count (row_of r x) (upsert_cron_schedules t repo exprs).rows ≤ 1)
unfolding upsert_cron_schedules
upsert_cron_schedules-known t repo exprs u r x =
    let left : Schedules = record t { rows = delete (undeclared repo exprs) t.rows } in
    (
      rw (known-inserts left repo exprs r x, known-delete repo exprs t.rows r x)
          (ground (arith, nat_beq_iff repo r, nat_beq_iff r repo)),
      insert_schedules-OneEach left repo exprs
          (λ r' x'. omega (arith, u r' x', delete-OneEach (undeclared repo exprs) t.rows r' x')) r
          x,
    )
