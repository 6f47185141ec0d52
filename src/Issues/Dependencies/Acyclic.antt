-- ===== src/Issues/Dependencies/Acyclic.antt =====
-- AddDependency of internal/storage/dependencies.go and the cycles of the depends-on graph.
use codefort.Base.{
  ℕ, ◌≡◌, ◌≢◌, refl, sym, subst, ◌⊎◌, inl, inr, Bool, true, false, some, List, [], ◌∷◌, ◌++◌, arith,
  nat_eq, nat_beq_iff, contains-append, exists, delete, Bool-cases,
}
use codefort.Storage.{ok, err, dependency_cycle}
use codefort.Issues.{Dependency, Tracker, issue_exists}
use codefort.Issues.Dependencies.{
  targets, same_edge, insert_edge, depends_on_reaches, add_dependency,
}
use codefort.Issues.Dependencies.Search.{
  Edge, Reach, here, next, Reach-trans, depends_on_reaches_decides, depends_on_reaches_sound,
  depends_on_reaches_complete,
}

-- No chain of one or more depends-on edges leads from an issue back to itself.
abbrev pub IsAcyclic : List Dependency → Type 0
IsAcyclic ds = (repo u v : ℕ) → Reach ds repo u v → ¬ Edge ds repo v u

targets-append :
    (ds es : List Dependency) (repo u : ℕ)
    → targets (ds ++ es) repo u ≡ targets ds repo u ++ targets es repo u
targets-append [] es repo u = refl
targets-append (d ∷ ds) es repo u = ground (arith, targets-append ds es repo u)

-- An edge after an insertion is an old one or the new one.
Edge-insert :
    (ds : List Dependency) (repo n m r u v : ℕ)
    → Edge (insert_edge ds repo n m) r u v
    → Edge ds r u v ⊎ ((r ≡ repo) × (u ≡ n) × (v ≡ m))
unfolding insert_edge
Edge-insert ds repo n m r u v e = elim (Bool-cases (exists (same_edge repo n m) ds)) [
  | inl old ↦ inl (ground arith)
  | inr new ↦ ground (
    arith,
    targets-append ds (record { repo_id = repo; issue_number = n; depends_on = m } ∷ []) r u,
    contains-append (targets ds r u) (m ∷ []) v,
    contains-append (targets ds r u) [] v,
    nat_beq_iff repo r,
    nat_beq_iff n u,
    nat_beq_iff v m,
  )
]

Edge-delete :
    (p : Dependency → Bool) (ds : List Dependency) (r u v : ℕ)
    → Edge (delete p ds) r u v
    → Edge ds r u v
Edge-delete p [] r u v e = e
Edge-delete p (d ∷ ds) r u v e = ground (arith, Edge-delete p ds r u v)

-- The chains after an insertion: old ones, and those through the new edge.
Reach-insert :
    (ds : List Dependency) (repo n m r : ℕ) {u v : ℕ}
    → Reach (insert_edge ds repo n m) r u v
    → Reach ds r u v ⊎ ((r ≡ repo) × Reach ds r u n × Reach ds r m v)
Reach-insert ds repo n m r here = inl here
Reach-insert ds repo n m r {u} (next {v = v} {w = w} p e) = elim (Reach-insert ds repo n m r p) [
  | inl q ↦ elim (Edge-insert ds repo n m r v w e) [
    | inl old ↦ inl (next q old)
    | inr (er, en, em) ↦ inr (er, subst (Reach ds r u) en q, subst (Reach ds r m) (sym em) here)
  ]
  | inr (er, q, q') ↦ elim (Edge-insert ds repo n m r v w e) [
    | inl old ↦ inr (er, q, next q' old)
    | inr (_, en, em) ↦ inr (er, q, subst (Reach ds r m) (sym em) here)
  ]
]

insert-IsAcyclic :
    (ds : List Dependency) (repo n m : ℕ)
    → IsAcyclic ds
    → ¬ Reach ds repo m n
    → IsAcyclic (insert_edge ds repo n m)
insert-IsAcyclic ds repo n m acyclic apart r u v p e = elim (Reach-insert ds repo n m r p) [
  | inl q ↦ elim (Edge-insert ds repo n m r v u e) [
    | inl old ↦ acyclic r u v q old
    | inr (er, en, em) ↦ apart (
        subst (λ k. Reach ds k m n) er (subst (Reach ds r m) en (subst (λ k. Reach ds r k v) em q)))
  ]
  | inr (er, q, q') ↦ elim (Edge-insert ds repo n m r v u e) [
    | inl old ↦ apart (subst (λ k. Reach ds k m n) er (Reach-trans ds r (next q' old) q))
    | inr (_, en, em) ↦ apart (subst (λ k. Reach ds k m n) er (subst (Reach ds r m) en q'))
  ]
]

Reach-delete :
    (p : Dependency → Bool) (ds : List Dependency) (r : ℕ) {u v : ℕ}
    → Reach (delete p ds) r u v
    → Reach ds r u v
Reach-delete p ds r here = here
Reach-delete p ds r (next q e) = next (Reach-delete p ds r q) (Edge-delete p ds r _ _ e)

pub delete-IsAcyclic :
    (p : Dependency → Bool) (ds : List Dependency) → IsAcyclic ds → IsAcyclic (delete p ds)
delete-IsAcyclic p ds a r u v q e = a r u v (Reach-delete p ds r q) (Edge-delete p ds r v u e)

-- For issues that exist and differ, adding the edge n → m fails, with ErrDependencyCycle, exactly
-- when m already depends on n by a chain of edges; otherwise it succeeds.
pub add_dependency_exact :
    (t : Tracker) (repo n m : ℕ)
    → n ≢ m
    → issue_exists t repo n ≡ true
    → issue_exists t repo m ≡ true
    → (Reach t.dependencies repo m n × (add_dependency t repo n m ≡ some (err dependency_cycle)))
      ⊎ ((¬ Reach t.dependencies repo m n)
          × (add_dependency t repo n m
              ≡ some (ok (record t { dependencies = insert_edge t.dependencies repo n m }))))
unfolding add_dependency
add_dependency_exact t repo n m d hn hm =
    elim (depends_on_reaches_decides t.dependencies repo m n) [
      | inl e ↦
          inl (depends_on_reaches_sound t.dependencies repo m n e, ground (arith, nat_beq_iff n m))
      | inr e ↦
          inr
            (depends_on_reaches_complete t.dependencies repo m n e, ground (arith, nat_beq_iff n m))
    ]

-- A successful AddDependency keeps the graph of every repository free of cycles.
pub add_dependency-IsAcyclic :
    (t t' : Tracker) (repo n m : ℕ)
    → IsAcyclic t.dependencies
    → add_dependency t repo n m ≡ some (ok t')
    → IsAcyclic t'.dependencies
unfolding add_dependency
add_dependency-IsAcyclic t t' repo n m a e =
    elim (depends_on_reaches_decides t.dependencies repo m n) [
      | inl r ↦ absurd (ground arith)
      | inr r ↦ subst IsAcyclic (ground arith) (
          insert-IsAcyclic t.dependencies repo n m a
            (depends_on_reaches_complete t.dependencies repo m n r))
    ]

-- The search always answers, and it answers true exactly when a chain of edges leads from `from` to
-- `target`.
pub depends_on_reaches_exact :
    (ds : List Dependency) (repo from target : ℕ)
    → ((depends_on_reaches ds repo from target ≡ some true) × Reach ds repo from target)
      ⊎ ((depends_on_reaches ds repo from target ≡ some false) × (¬ Reach ds repo from target))
depends_on_reaches_exact ds repo from target =
    elim (depends_on_reaches_decides ds repo from target) [
      | inl h ↦ inl (h, depends_on_reaches_sound ds repo from target h)
      | inr h ↦ inr (h, depends_on_reaches_complete ds repo from target h)
    ]
