-- ===== src/Access/Gate/Hidden.antt =====
-- A private repository looks to an outsider as if it did not exist.
use codefort.Base.{ℕ, String, Bool, Option, none, some, ◌≡◌, refl, sym, ap, ◌∙◌}
use codefort.Storage.{err, not_found}
use codefort.Access.{User, Repo, Registry, lookup_repo}
use codefort.Access.Paths.{repo_from_path, trim_suffix}
use codefort.Access.Rights.{MayRead}
use codefort.Access.Gate.{
  Request, Answer, Handler, not_registered, principal_from_context, with_repo_access,
}
use codefort.Access.Gate.Refinement.{
  Resolves, Decided, handed_on, refused_write, hides, with_repo_access-Decided,
}
use codefort.Access.Members.{lookup_repo_or_fail, after_checks}

hidden_of :
    {g : Registry} {r : Repo} {u : User} {who : String} {needs_write : Bool}
    {answer served refused hidden : Registry × Answer}
    → ¬ MayRead g r u who
    → Decided g r u who needs_write answer served refused hidden
    → answer ≡ hidden
hidden_of outsider (handed_on m w e) = absurd (outsider m)
hidden_of outsider (refused_write m n w e) = absurd (outsider m)
hidden_of outsider (hides h e) = e

-- For every handler that answers some requests without the tables, by checks of its own, and looks the
-- repository of the others up by lookupRepoOrFail, whatever it does afterwards: on a request that
-- passes the checks, a caller who may not read a repository gets the very answer that tables without
-- the repository would give, and nothing is written.
pub outsider_sees_nothing :
    (check : Request → Option Answer) (handle : ℕ → Handler) (g g' : Registry) (req : Request)
    (owner segment name : String) (r : Repo) (u : User)
    → Resolves g owner name r u
    → trim_suffix segment ".git" ≡ name
    → repo_from_path req.path "/api/repos" ≡ some (owner, name)
    → ¬ MayRead g r u (principal_from_context req)
    → lookup_repo g' owner name ≡ err not_found
    → check req ≡ none
    → ((with_repo_access (after_checks check (lookup_repo_or_fail owner segment handle)) g req).1
        ≡ (with_repo_access
            (after_checks check (lookup_repo_or_fail owner segment handle))
            g'
            req).1)
      × ((with_repo_access (after_checks check (lookup_repo_or_fail owner segment handle)) g req).0
          ≡ g)
unfolding lookup_repo_or_fail with_repo_access
outsider_sees_nothing check handle g g' req owner segment name r u s trimmed path outsider absent
      passed =
    let inner = after_checks check (lookup_repo_or_fail owner segment handle) in
    let here = hidden_of outsider (with_repo_access-Decided inner g req owner name r u s path) in
    let there : with_repo_access inner g' req ≡ (g', not_registered owner name) =
      rw
        (with_repo_access, path, absent, after_checks, passed, lookup_repo_or_fail, trimmed, absent)
        (rw trimmed refl) in
    (ap (λ x. x.1) here ∙ sym (ap (λ x. x.1) there), ap (λ x. x.0) here)
