-- ===== src/Access/Gate/Refinement.antt =====
-- The two repository gates implement the rights of Access/Rights: what a request gets is decided by
-- MayRead, MayWrite and the kind of the request alone.
use codefort.Base.{
  String, Bool, true, false, not, none, some, ◌≡◌, ◌≢◌, refl, ◌⊎◌, inl, inr, ◌==◌, string_eq,
  eq_iff, Bool-cases, Option-cases, select_first, arith,
}
use codefort.Storage.{ok}
use codefort.Access.{
  User, Repo, Registry, repo_is, owned_by, owner_row, lookup_repo, can_access_repo, repo_is_private,
}
use codefort.Access.Paths.{repo_from_path, is_read_method}
use codefort.Access.Rights.{MayRead, MayWrite, can_access_iff, can_write_iff}
use codefort.Access.Tokens.{Platform}
use codefort.Access.Gate.{
  Request, Answer, Handler, failure, challenge, not_registered, write_required, admit_reader,
  principal_from_context, git_identity, is_git_write, with_repo_access, with_git_repo_access,
}

-- The row that owner and name resolve to, and the row of its owner.
pub record Resolves (g : Registry) (owner name : String) (r : Repo) (u : User) : Type 0 where
  pub named : select_first (owned_by g owner name) g.repos ≡ some r
  pub row : select_first (repo_is r.id) g.repos ≡ some r
  pub owned : owner_row g r ≡ some u

-- What the rights make of a request that needs to write or not: it is handed on, refused, or
-- answered as if there were no repository.
pub data Decided (g : Registry) (r : Repo) (u : User) (who : String) (needs_write : Bool)
    (answer served refused hidden : Registry × Answer) : Type 0 where
  handed_on :
      MayRead g r u who
      → (needs_write ≡ false) ⊎ MayWrite g r u who
      → answer ≡ served
      → Decided g r u who needs_write answer served refused hidden
  refused_write :
      MayRead g r u who
      → needs_write ≡ true
      → ¬ MayWrite g r u who
      → answer ≡ refused
      → Decided g r u who needs_write answer served refused hidden
  hides :
      ¬ MayRead g r u who
      → answer ≡ hidden
      → Decided g r u who needs_write answer served refused hidden

module _ (next : Handler) (g : Registry) (req : Request) (owner name : String) (r : Repo) (u : User)
    (s : Resolves g owner name r u) where
  admit_reader-Decided :
      (who : String) (needs_write : Bool) (hidden : Answer)
      → Decided g r u who needs_write
          (admit_reader next g req r.id who needs_write owner name hidden
            (can_access_repo g r.id who))
          (next g req)
          (g, write_required owner name)
          (g, hidden)
  admit_reader-Decided who needs_write hidden =
      let (b, e, read) = can_access_iff g r u who s.row s.owned in
      let (c, f, write) = can_write_iff g r u who s.row s.owned in
      rw (e, f)
        (elim (Bool-cases b) [
          | inr closed ↦ hides (λ m. absurd (ground (arith, read.1 m))) (ground arith)
          | inl open_b ↦ elim (Bool-cases needs_write) [
            | inr reads ↦ handed_on (read.0 open_b) (inl reads) (ground arith)
            | inl writes ↦ elim (Bool-cases c) [
              | inl can ↦ handed_on (read.0 open_b) (inr (write.0 can)) (ground arith)
              | inr cannot ↦
                  refused_write (read.0 open_b) writes (λ m. absurd (ground (arith, write.1 m)))
                    (ground arith)
            ]
          ]
        ])

  pub lookup_repo_found : lookup_repo g owner name ≡ ok r.id
  unfolding lookup_repo
  lookup_repo_found = ground (arith, s.named)

  pub with_repo_access-Decided :
      repo_from_path req.path "/api/repos" ≡ some (owner, name)
      → Decided g r u
          (principal_from_context req)
          (not (is_read_method req.verb))
          (with_repo_access next g req)
          (next g req)
          (g, write_required owner name)
          (g, not_registered owner name)
  unfolding with_repo_access
  with_repo_access-Decided path =
      rw (with_repo_access, path, lookup_repo_found)
        (admit_reader-Decided (principal_from_context req) (not (is_read_method req.verb))
          (not_registered owner name))

  repo_is_private_found : repo_is_private g r.id ≡ ok (r.visibility == "private")
  unfolding repo_is_private
  repo_is_private_found = ground (arith, s.row)

  -- On the git transport, a request whose path names a repository that resolves reaches git whenever
  -- the repository is not private. For a private one, a request with no live token is challenged
  -- with a 401, and any other is decided by the rights of the token's account: a push needs the
  -- right to write, and whoever may not read gets the answer for an unknown path.
  pub with_git_repo_access-decides :
      (p : Platform)
      → repo_from_path req.path "" ≡ some (owner, name)
      → ((r.visibility ≢ "private") × (with_git_repo_access p next g req ≡ next g req))
        ⊎ ((r.visibility ≡ "private")
            × (((git_identity p g req ≡ none)
                  × (with_git_repo_access p next g req ≡ (g, challenge "authentication required")))
                ⊎ ((who : String) × (git_identity p g req ≡ some who)
                    × Decided g r u who
                        (is_git_write req)
                        (with_git_repo_access p next g req)
                        (next g req)
                        (g, write_required owner name)
                        (g, failure 404 "404 page not found"))))
  unfolding with_git_repo_access
  with_git_repo_access-decides p path = elim (Bool-cases (r.visibility == "private")) [
    | inr public ↦ inl (
      (λ e. absurd (ground (arith, eq_iff r.visibility "private"))),
      rw (with_git_repo_access, path, lookup_repo_found, repo_is_private_found, public) refl,
    )
    | inl private ↦ inr (
      (eq_iff r.visibility "private").0 private,
      elim (Option-cases (git_identity p g req)) [
        | inl unknown ↦ inl (
          unknown,
          rw
              (
                with_git_repo_access, path, lookup_repo_found, repo_is_private_found, private,
                unknown,
              )
              refl,
        )
        | inr (who, known) ↦ inr (
          who,
          known,
          rw (with_git_repo_access, path, lookup_repo_found, repo_is_private_found, private, known)
              (admit_reader-Decided who (is_git_write req) (failure 404 "404 page not found")),
        )
      ],
    )
  ]
