-- ===== src/Access/Members.antt =====
-- internal/server/members.go, with lookupRepoOrFail of issues.go: the handlers that manage the
-- collaborators of a repository. The path values and the decoded body are arguments, and so is
-- strings.EqualFold.
pub mod Sessions
use Prim.Native.String.{◌++◌}
use codefort.Base.{
  ℕ, String, Bool, true, false, not, Option, none, some, ◌==◌, string_eq, if◌then◌else◌,
}
use codefort.Storage.{Error, not_found, invalid_input, Result, ok, err}
use codefort.Access.{Registry, lookup_repo, is_repo_owner, add_repo_member, remove_repo_member}
use codefort.Access.Paths.{trim_suffix}
use codefort.Access.Gate.{
  Request, Answer, Handler, failure, not_registered, internal_error, identity_from_context,
}

-- What the JSON decoder makes of the body: the two fields, or its error's text.
pub data Body : Type 0 where
  decoded : String → String → Body
  malformed : String → Body

abbrev pub no_content : Answer
no_content = record { status = 204; message = ""; challenge = false }

unfoldable pub lookup_repo_or_fail : String → String → (ℕ → Handler) → Handler
lookup_repo_or_fail owner segment use_repo g r =
    let repo = trim_suffix segment ".git" in
    elim (lookup_repo g owner repo) [
      | err e ↦ (g, not_registered owner repo)
      | ok id ↦ use_repo id g r
    ]

-- The checks of the path's number and of the body that some handlers make before they look up the
-- repository, as handleGetIssue, handleDeleteIssue and handleMergePull do: an answer refuses.
abbrev pub after_checks : (Request → Option Answer) → Handler → Handler
after_checks check handle g r = elim (check r) [ some a ↦ (g, a) | none ↦ handle g r ]

abbrev pub owners_only : Answer
owners_only = failure 403 "only the repo owner can manage members"

module _ (equal_fold : String → String → Bool) where
  -- The check of both handlers: the attribution name of the token is compared with the owner.
  as_owner : (ℕ → Handler) → ℕ → Handler
  as_owner act id g r = elim (is_repo_owner equal_fold g id (identity_from_context r)) [
    | err e ↦ (g, internal_error)
    | ok owns ↦ if not owns then (g, owners_only) else act id g r
  ]

  add_error : String → Error → Answer
  add_error username not_found = failure 404 ("user not found: " ++ username)
  add_error username invalid_input = failure 400 "role must be 'read' or 'write'"
  add_error username _ = internal_error

  add : ℕ → Body → ℕ → Handler
  unfolding add_error
  add now (malformed why) id g r = (g, failure 400 ("invalid JSON: " ++ why))
  add now (decoded username role) id g r =
      elim (add_repo_member g now id username (if role == "" then "write" else role)) [
        | err e ↦ (g, add_error username e)
        | ok g' ↦ (g', no_content)
      ]

  unfoldable pub handle_add_member : ℕ → String → String → Body → Handler
  unfolding as_owner add
  handle_add_member now owner segment body =
      lookup_repo_or_fail owner segment (as_owner (add now body))

  remove : String → ℕ → Handler
  remove target id g r = elim (remove_repo_member g id target) [
    | err e ↦ (g, failure 404 (target ++ " is not a member of this repo"))
    | ok g' ↦ (g', no_content)
  ]

  unfoldable pub handle_remove_member : String → String → String → Handler
  unfolding as_owner remove
  handle_remove_member owner segment target =
      lookup_repo_or_fail owner segment (as_owner (remove target))
