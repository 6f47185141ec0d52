-- ===== src/Issues/Claims/Examples.antt =====
-- Examples for claims: one issue that ann may take or holds since second 100, under a lease of one minute.
use codefort.Base.{
  inr, ℕ, ◌+◌, ◌<◌, ◌≡◌, ◌≢◌, refl, ◌⊎◌, String, Option, none, some, List, [], ◌∷◌, arith, ℤ, pos,
  positive_seconds, All, eq_iff,
}
use codefort.Storage.{ok, err, already_claimed}
use codefort.Issues.{todo, Issue, Tracker, row_at, HasUniqueNumbers, OtherKey}
use codefort.Issues.Claims.{claim}
use codefort.Issues.Claims.Lock.{IsAvailable, taken_by, claim_decides}
use codefort.Issues.Claims.Lease.{
  Call, claims, unclaims, deletes, reaps, run, IsHeld, Leaves, run-IsHeld,
}

abbrev issue : Option String → Option ℕ → Issue
issue assignee since = record {
  id = 1;
  repo_id = 1;
  number = 1;
  title = "t";
  body = "";
  author = "ann";
  state = todo;
  assignee = assignee;
  claimed_at = since;
  parent_number = none;
  created_at = 10;
  updated_at = 10;
  labels = [];
}

abbrev with_issue : Issue → Tracker
with_issue i = record { issues = i ∷ []; next_id = 2; comments = []; dependencies = [] }

abbrev minute : ℤ
minute = pos 60_000_000_000

one_issue-HasUniqueNumbers : HasUniqueNumbers (with_issue (issue none none))
one_issue-HasUniqueNumbers r n = ground arith

claim_decides_example :
    (IsAvailable minute 200 "ann" (issue none none)
      × (t' : Tracker) × (claim (with_issue (issue none none)) 200 1 1 "ann" none minute
          ≡ ok (taken_by 200 "ann" none (issue none none), t'))
      × (row_at t' 1 1 ≡ some (taken_by 200 "ann" none (issue none none)))
      × ((r n : ℕ) → OtherKey 1 1 r n → row_at t' r n ≡ row_at (with_issue (issue none none)) r n))
    ⊎ ((¬ IsAvailable minute 200 "ann" (issue none none))
        × (claim (with_issue (issue none none)) 200 1 1 "ann" none minute ≡ err already_claimed))
claim_decides_example =
    claim_decides (with_issue (issue none none)) 200 1 1 "ann" none minute (issue none none)
      one_issue-HasUniqueNumbers refl

abbrev calls : List (ℕ × Call)
calls =
    (120, claims 1 1 "bob" none)
    ∷ (130, unclaims 1 1 "bob")
    ∷ (140, reaps)
    ∷ (150, deletes 1 2)
    ∷ []

live : (now : ℕ) → now < 160 → (s : ℕ) → positive_seconds minute ≡ some s → now < 100 + s
live now h s e = ground (arith, h, e)

IsHeld-by_ann : IsHeld 1 1 "ann" 100 (with_issue (issue (some "ann") (some 100)))
IsHeld-by_ann = record {
  row = issue (some "ann") (some 100);
  there = refl;
  held = refl;
  stamped = refl;
}

not_ann : ◌≢◌ {A = String} "bob" "ann"
not_ann e = ground (arith, (eq_iff "bob" "ann").1 e)

others_call : All (Leaves minute 1 1 "ann" 100) calls
others_call = (
  (live 120 (omega arith), not_ann),
  (
    (live 130 (omega arith), not_ann),
    ((live 140 (omega arith), tt), ((live 150 (omega arith), inr (λ e. omega (arith, e))), tt)),
  ),
)

run-IsHeld_example :
    IsHeld 1 1 "ann" 100 (run minute (with_issue (issue (some "ann") (some 100))) calls)
run-IsHeld_example =
    run-IsHeld minute 1 1 "ann" 100 (with_issue (issue (some "ann") (some 100))) calls others_call
      ((tt, tt), (omega arith, tt)) IsHeld-by_ann
