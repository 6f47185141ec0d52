-- ===== src/Ci/Order/Examples.antt =====
-- Examples for the topological order: a test that needs a build.
use codefort.Base.{
  ℕ, ◌≤◌, ◌<◌, ◌≡◌, refl, String, true, false, some, List, [], ◌∷◌, map, arith, ◌==◌, string_eq,
  eq_iff, contains, Bool-cases, if◌then◌else◌, subst, inl, inr,
}
use codefort.Ci.{
  scalar, node, no_nodes, Job, Pipeline, needs_of, job_names, occurrences, HasDistinctJobs,
}
use codefort.Ci.Order.{Outcome, ordered, emit, round, rounds, start, topo_order}
use codefort.Ci.Order.Sound.{IsOrderedAfter, topo_order_sound}
use codefort.Ci.Order.Complete.{IsValid, topo_order_complete, topo_order-total}

abbrev job : List String → Job
job needs = record {
  needs = needs;
  image = "";
  docker_socket = false;
  steps = node scalar "make" no_nodes ∷ [];
}

abbrev pipeline : Pipeline
pipeline = record {
  version = "1";
  branches = [];
  schedule = [];
  jobs = ("a-test", job ("build" ∷ [])) ∷ ("build", job []) ∷ [];
}

pipeline-HasDistinctJobs : HasDistinctJobs pipeline
pipeline-HasDistinctJobs a = elim (Bool-cases ("a-test" == a)) [
  | inl e ↦
      subst (λ x. occurrences x (map (λ j. j.0) pipeline.jobs) ≤ 1) ((eq_iff "a-test" a).0 e)
        (omega arith)
  | inr e ↦ ground (arith, e)
]

topo_order_sound_example :
    IsOrderedAfter pipeline [] ("build" ∷ "a-test" ∷ [])
    × ((a : String)
        → occurrences a ("build" ∷ "a-test" ∷ []) ≡ occurrences a (map (λ j. j.0) pipeline.jobs))
unfolding topo_order rounds round emit start job_names
topo_order_sound_example =
    topo_order_sound pipeline ("build" ∷ "a-test" ∷ []) pipeline-HasDistinctJobs refl

topo_order-total_example : (out : Outcome) × (topo_order pipeline ≡ some out)
topo_order-total_example = topo_order-total pipeline

abbrev depth : String → ℕ
depth a = if a == "build" then 0 else 1

needs_lower : (a d : String) → contains (needs_of pipeline a) d ≡ true → depth d < depth a
needs_lower a d n = elim (Bool-cases ("a-test" == a)) [
  | inl e ↦ subst (λ x. depth d < depth x) ((eq_iff "a-test" a).0 e) (ground (arith, n, e))
  | inr e ↦ absurd (ground (arith, n, e))
]

pipeline-IsValid : IsValid pipeline
unfolding job_names
pipeline-IsValid = record {
  distinct = pipeline-HasDistinctJobs;
  known = λ a d h n. ground (arith, n);
  rank = depth;
  descends = λ a d h n. needs_lower a d n;
}

topo_order_complete_example : (o : List String) × (topo_order pipeline ≡ some (ordered o))
topo_order_complete_example = topo_order_complete pipeline pipeline-IsValid
