-- ===== src/Ci/Order.antt =====
-- TopoOrder of internal/ci/ci.go: Kahn's algorithm over the needs edges, in rounds over the sorted
-- job names.
pub mod Degrees
pub mod Sound
pub mod Complete
pub mod Examples
use codefort.Base.{
  ℕ, zero, suc, ◌+◌, ◌<◌, String, Bool, true, false, ◌||◌, Option, none, some, List, [], ◌∷◌, ◌++◌,
  ℤ, pos, negsuc, ltb, ◌==◌, string_eq, if◌then◌else◌, length,
}
use codefort.Ci.{Pipeline, needs_of, job_names}

-- n - 1 on int
abbrev pub pred : ℤ → ℤ
pred (pos zero) = negsuc 0
pred (pos (suc n)) = pos n
pred (negsuc n) = negsuc (suc n)

abbrev pub is_zero : ℤ → Bool
is_zero (pos zero) = true
is_zero _ = false

-- m[key] = value
abbrev pub set : String → ℤ → (String → ℤ) → String → ℤ
set key value m = λ x. if x == key then value else m x

pub record Progress : Type 0 where
  pub indegree : String → ℤ
  pub order : List String
  pub progressed : Bool

-- `for _, dep := range p.Jobs[other].Needs { if dep == name { indegree[other]-- } }`
abbrev pub decrement : String → String → List String → (String → ℤ) → String → ℤ
decrement name other [] m = m
decrement name other (dep ∷ deps) m =
    decrement name other deps (if dep == name then set other (pred (m other)) m else m)

-- The loop over the dependents of `name`.
abbrev pub release : Pipeline → String → List String → (String → ℤ) → String → ℤ
release p name [] m = m
release p name (other ∷ others) m =
    release p name others (decrement name other (needs_of p other) m)

-- One job of a round: a job with no unmet need is emitted.
pub emit : Pipeline → Progress → String → Progress
emit p s name =
    if is_zero (s.indegree name)
    then record {
      order = s.order ++ name ∷ [];
      indegree = release p name (job_names p) (set name (negsuc 0) s.indegree);
      progressed = true;
    }
    else s

pub round : Pipeline → List String → Progress → Progress
round p [] s = s
round p (name ∷ names) s = round p names (emit p s name)

pub data Outcome : Type 0 where
  ordered : List String → Outcome
  cyclic : Outcome

-- The outer loop; `none` when the fuel runs out first.
pub rounds : Pipeline → ℕ → Progress → Option Outcome
rounds p zero s = if ltb (length s.order) (length p.jobs) then none else some (ordered s.order)
rounds p (suc fuel) s = elim (ltb (length s.order) (length p.jobs)) [
  | false ↦ some (ordered s.order)
  | true ↦
      let s' = round p (job_names p) (record s { progressed = false }) in
      elim s'.progressed [ true ↦ rounds p fuel s' | false ↦ some cyclic ]
]

pub start : Pipeline → Progress
start p = record {
  indegree = λ name. pos (length (needs_of p name));
  order = [];
  progressed = false;
}

-- As many rounds as there are jobs are enough: every round but the last emits one.
pub topo_order : Pipeline → Option Outcome
topo_order p = rounds p (length p.jobs) (start p)
