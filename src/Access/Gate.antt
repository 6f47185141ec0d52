-- ===== src/Access/Gate.antt =====
-- internal/server: the middlewares withAuth and withBasicAuth of auth.go, and withRepoAccess and
-- withGitRepoAccess of access.go. A handler takes the tables and a request to the tables and an
-- answer. The errors of the database driver, which the code answers by 500, do not arise here.
pub mod Refinement
pub mod Hidden
use Prim.Native.String.{◌++◌}
use codefort.Base.{
  ℕ, ◌+◌, String, Bool, true, false, not, ◌&&◌, ◌||◌, Option, none, some, ◌==◌, nat_eq, string_eq,
  if◌then◌else◌, leb,
}
use codefort.Storage.{Error, not_found, Result, ok, err}
use codefort.Access.{Registry, lookup_repo, can_access_repo, can_write_repo, repo_is_private}
use codefort.Access.Paths.{has_suffix, repo_from_path, is_read_method}
use codefort.Access.Tokens.{
  Platform, Identity, Bearer, Bearer.token, Bearer.refused, lookup_token, bearer_token, touch_token,
}

-- The parts of a request that are read: the token is the one that withAuth puts on the context,
-- `basic` what r.BasicAuth decodes from the header, `service` the query parameter.
pub record Request : Type 0 where
  pub verb : String
  pub path : String
  pub service : String
  pub authorization : String
  pub basic : Option (String × String)
  pub caller : Option Identity

pub record Answer : Type 0 where
  pub status : ℕ
  pub message : String
  pub challenge : Bool

abbrev pub Handler : Type 0
Handler = Registry → Request → Registry × Answer

-- writeError, http.Error and http.NotFound
abbrev pub failure : ℕ → String → Answer
failure status message = record { status = status; message = message; challenge = false }

-- with the header WWW-Authenticate
abbrev pub challenge : String → Answer
challenge message = record { status = 401; message = message; challenge = true }

abbrev pub slug : String → String → String
slug owner repo = owner ++ ("/" ++ repo)

abbrev pub not_registered : String → String → Answer
not_registered owner repo = failure 404 ("repo not registered: " ++ slug owner repo)

abbrev pub write_required : String → String → Answer
write_required owner repo = failure 403 ("write access required for " ++ slug owner repo)

abbrev pub internal_error : Answer
internal_error = failure 500 "internal error"

-- tokenTouchInterval, in seconds
abbrev pub touch_interval : ℕ
touch_interval = 300

abbrev pub account_name : Identity → String
account_name t = if not (t.user_name == "") then t.user_name else t.name

unfoldable pub principal_from_context : Request → String
principal_from_context r = elim r.caller [ none ↦ "" | some t ↦ account_name t ]

unfoldable pub identity_from_context : Request → String
identity_from_context r = elim r.caller [ none ↦ "anonymous" | some t ↦ t.name ]

abbrev due : ℕ → Identity → Bool
due now t = elim t.last_used_at [ none ↦ true | some s ↦ leb (s + touch_interval) now ]

module _ (p : Platform) where
  unfoldable pub with_auth : ℕ → Handler → Handler
  with_auth now next g r = elim (bearer_token p r.authorization) [
    | refused message ↦ (g, failure 401 message)
    | token raw ↦ elim (lookup_token p g raw) [
      | err e ↦ (g, failure 401 "invalid token")
      | ok t ↦ next (if due now t then touch_token g now t.id else g) (record r { caller = some t })
    ]
  ]

  -- The Bearer token, or else the password of the Basic credential.
  presented : Request → Option String
  presented r = elim (bearer_token p r.authorization) [
    | token raw ↦ some raw
    | refused _ ↦ elim r.basic [ none ↦ none | some (user, pass) ↦ some pass ]
  ]

  unfoldable pub git_identity : Registry → Request → Option String
  unfolding presented
  git_identity g r = elim (presented r) [
    | none ↦ none
    | some raw ↦
        if raw == ""
        then none
        else elim (lookup_token p g raw) [ err e ↦ none | ok t ↦ some (account_name t) ]
  ]

-- What the gate does with a repository that resolves: `reads` and `writes` are the two checks.
abbrev pub admit :
    Handler → Registry → Request → Bool → String → String → Result Bool → Registry × Answer
admit next g r needs_write owner repo (err e) = (g, internal_error)
admit next g r needs_write owner repo (ok can_write) =
    if needs_write && not can_write then (g, write_required owner repo) else next g r

abbrev pub admit_reader :
    Handler
    → Registry
    → Request
    → ℕ
    → String
    → Bool
    → String
    → String
    → Answer
    → Result Bool
    → Registry × Answer
admit_reader next g r id who needs_write owner repo hidden (err e) = (g, internal_error)
admit_reader next g r id who needs_write owner repo hidden (ok allowed) =
    if allowed then admit next g r needs_write owner repo (can_write_repo g id who) else (g, hidden)

unfoldable pub with_repo_access : Handler → Handler
with_repo_access next g r = elim (repo_from_path r.path "/api/repos") [
  | none ↦ next g r
  | some (owner, repo) ↦ elim (lookup_repo g owner repo) [
    | err e ↦ next g r
    | ok id ↦
        let who = principal_from_context r in
        admit_reader next g r id who (not (is_read_method r.verb)) owner repo
          (not_registered owner repo) (can_access_repo g id who)
  ]
]

unfoldable pub is_git_write : Request → Bool
is_git_write r =
    has_suffix r.path "/git-receive-pack"
    || (has_suffix r.path "/info/refs" && r.service == "git-receive-pack")

unfoldable pub with_git_repo_access : Platform → Handler → Handler
with_git_repo_access p next g r = elim (repo_from_path r.path "") [
  | none ↦ next g r
  | some (owner, repo) ↦ elim (lookup_repo g owner repo) [
    | err e ↦ next g r
    | ok id ↦ elim (repo_is_private g id) [
      | err e ↦ (g, internal_error)
      | ok private ↦ elim private [
        | false ↦ next g r
        | true ↦ elim (git_identity p g r) [
          | none ↦ (g, challenge "authentication required")
          | some who ↦
              admit_reader next g r id who (is_git_write r) owner repo
                (failure 404 "404 page not found") (can_access_repo g id who)
        ]
      ]
    ]
  ]
]

-- The configured user and password; no user means no gate.
unfoldable pub with_basic_auth : String → String → Handler → Handler
with_basic_auth want_user want_pass next g r = if want_user == "" then next g r else elim r.basic [
  | none ↦ (g, challenge "unauthorized")
  | some (user, pass) ↦
      if user == want_user && pass == want_pass then next g r else (g, challenge "unauthorized")
]
