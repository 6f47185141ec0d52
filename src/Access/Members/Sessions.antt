-- ===== src/Access/Members/Sessions.antt =====
-- The member handlers under a session token: the account may write, but the check reads another name.
use Prim.Native.String.{◌++◌}
use Prim.Native.String
use text.Mathlib.TextLemmas.{length-append}
use codefort.Base.{
  ℕ, String, Bool, true, false, some, ◌≡◌, ◌≢◌, ap, ◌∙◌, inl, inr, arith, Bool-cases, eq_iff,
  string_eq,
}
use codefort.Storage.{ok}
use codefort.Access.{User, Repo, Registry, lookup_repo, is_repo_owner}
use codefort.Access.Paths.{repo_from_path, trim_suffix}
use codefort.Access.Rights.{owner_reads, owner_writes, repo_row_lem}
use codefort.Access.Tokens.{Identity}
use codefort.Access.Gate.{
  Request, Answer, principal_from_context, identity_from_context, with_repo_access,
}
use codefort.Access.Gate.Refinement.{
  Resolves, Decided, handed_on, refused_write, hides, with_repo_access-Decided, lookup_repo_found,
}
use codefort.Access.Members.{lookup_repo_or_fail, Body, as_owner, handle_add_member, owners_only}

-- The owner's account, through the token of a login: its name is the account's with "-session" behind.
pub record IsOwnerSession (u : User) (req : Request) (t : Identity) : Type 0 where
  pub carried : req.caller ≡ some t
  pub account : t.user_name ≡ u.name
  pub named : t.name ≡ u.name ++ "-session"
  pub not_empty : u.name ≢ ""

served_of :
    {g : Registry} {r : Repo} {u : User} {who : String} {needs_write : Bool}
    {answer served refused hidden : Registry × Answer}
    → u.name ≡ who
    → Decided g r u who needs_write answer served refused hidden
    → answer ≡ served
served_of e (handed_on m w a) = a
served_of e (refused_write m n w a) = absurd (w (owner_writes e))
served_of e (hides h a) = absurd (h (owner_reads e))

module _ (equal_fold : String → String → Bool)
    (fold_keeps_count : (s t : String) → equal_fold s t ≡ true → String.count s ≡ String.count t)
    (g : Registry) (req : Request) (owner segment name : String) (r : Repo) (u : User)
    (t : Identity) where
  principal_of : IsOwnerSession u req t → u.name ≡ principal_from_context req
  unfolding principal_from_context
  principal_of is = ground (arith, is.carried, eq_iff t.user_name "")

  named_otherwise : IsOwnerSession u req t → equal_fold u.name t.name ≡ false
  named_otherwise is = elim (Bool-cases (equal_fold u.name t.name)) [
    | inr e ↦ e
    | inl e ↦ absurd (
        omega (
          arith,
          fold_keeps_count u.name t.name e,
          ap String.count is.named,
          length-append u.name "-session",
        ))
  ]

  checked :
      Resolves g owner name r u
      → IsOwnerSession u req t
      → is_repo_owner equal_fold g r.id (identity_from_context req) ≡ ok false
  unfolding is_repo_owner identity_from_context
  checked s is =
      ground (arith, repo_row_lem g r u u.name s.row s.owned, is.carried, named_otherwise is)

  looked_up :
      Resolves g owner name r u
      → trim_suffix segment ".git" ≡ name
      → lookup_repo g owner (trim_suffix segment ".git") ≡ ok r.id
  looked_up s trimmed =
      rw trimmed (lookup_repo_found (λ g r. (g, owners_only)) g req owner name r u s)

  refuses :
      (now : ℕ) (body : Body)
      → Resolves g owner name r u
      → trim_suffix segment ".git" ≡ name
      → IsOwnerSession u req t
      → handle_add_member equal_fold now owner segment body g req ≡ (g, owners_only)
  unfolding handle_add_member lookup_repo_or_fail as_owner
  refuses now body s trimmed is = ground (arith, looked_up s trimmed, checked s is)

  -- The owner of a repository, signed in by a login, passes the gate but is refused by the handler:
  -- adding a member answers 403 and changes nothing, whatever the body is. The texts that
  -- strings.EqualFold takes for equal are assumed to have the same number of characters.
  pub owner_session_refused :
      (now : ℕ) (body : Body)
      → Resolves g owner name r u
      → trim_suffix segment ".git" ≡ name
      → repo_from_path req.path "/api/repos" ≡ some (owner, name)
      → IsOwnerSession u req t
      → with_repo_access (handle_add_member equal_fold now owner segment body) g req
        ≡ (g, owners_only)
  owner_session_refused now body s trimmed path is =
      served_of (principal_of is) (
        with_repo_access-Decided (handle_add_member equal_fold now owner segment body) g req owner
          name r u s path)
      ∙ refuses now body s trimmed is
