-- ===== src/Ci.antt =====
-- The pipeline document of internal/ci/ci.go: jobs that need each other. The YAML decoder is not
-- modelled: a document is here as it leaves the decoder, with the keys of its jobs distinct.
pub mod Order
use Prim.Native.String.{compare}
use Prim.Native.Nat.{Ordering}
use codefort.Base.{
  ℕ, suc, ◌≤◌, ◌≡◌, String, Bool, true, false, Option, none, some, List, [], ◌∷◌, map, ◌==◌,
  string_eq, if◌then◌else◌, contains, count, All,
}

pub data Kind : Type 0 where
  scalar sequence mapping document alias : Kind

-- yaml.Node as far as the program reads it: the kind, the value and the content.
mutual
  pub data Node : Type 0 where
    node : Kind → String → Nodes → Node

  pub data Nodes : Type 0 where
    no_nodes : Nodes
    more : Node → Nodes → Nodes

pub record Job : Type 0 where
  pub needs : List String
  pub image : String
  pub docker_socket : Bool
  pub steps : List Node

pub record Pipeline : Type 0 where
  pub version : String
  pub branches : List String
  pub schedule : List String
  pub jobs : List (String × Job)

-- p.Jobs[name].Needs; the zero Job of a missing key needs nothing.
abbrev pub needs_in : List (String × Job) → String → List String
needs_in [] name = []
needs_in ((key, job) ∷ rest) name = if key == name then job.needs else needs_in rest name

abbrev pub needs_of : Pipeline → String → List String
needs_of p name = needs_in p.jobs name

abbrev before : String → String → Bool
before a b = elim (compare a b) [ Ordering.gt ↦ false | _ ↦ true ]

abbrev insert : String → List String → List String
insert a [] = a ∷ []
insert a (b ∷ bs) = if before a b then a ∷ b ∷ bs else b ∷ insert a bs

-- sort.Strings
abbrev pub sort_strings : List String → List String
sort_strings [] = []
sort_strings (a ∷ rest) = insert a (sort_strings rest)

pub job_names : Pipeline → List String
job_names p = sort_strings (map (λ j. j.0) p.jobs)

-- How often a name occurs in a list.
abbrev pub occurrences : String → List String → ℕ
occurrences a xs = count (λ x. x == a) xs

-- The keys of a Go map are distinct.
abbrev pub HasDistinctJobs : Pipeline → Type 0
HasDistinctJobs p = (a : String) → occurrences a (map (λ j. j.0) p.jobs) ≤ 1
