-- ===== src/Access.antt =====
-- Who may use a repository: the tables users, repos, repo_members and tokens, and the functions of
-- internal/storage/repo_members.go with the repository lookups of repos.go.

pub mod Paths
pub mod Tokens
pub mod Gate
pub mod Rights
pub mod Members
pub mod Roles
pub mod Sessions
pub mod Examples
use codefort.Base.{
  ℕ, suc, String, Bool, true, false, not, ◌&&◌, ◌||◌, Option, none, some, List, [], ◌∷◌, ◌++◌, ◌==◌,
  nat_eq, string_eq, if◌then◌else◌, ltb, select_first, update, delete, count, exists,
}
use codefort.Storage.{
  Error, not_found, invalid_input, constraint_failed, Result, ok, err, ◌>>=◌, affected, found,
}

pub record User : Type 0 where
  pub id : ℕ
  pub name : String
  pub password_hash : Option String

pub record Repo : Type 0 where
  pub id : ℕ
  pub owner_id : ℕ
  pub name : String
  pub visibility : String

pub record Member : Type 0 where
  pub repo_id : ℕ
  pub user_id : ℕ
  pub role : String
  pub created_at : ℕ

pub record Token : Type 0 where
  pub id : ℕ
  pub name : String
  pub hashed_token : String
  pub created_at : ℕ
  pub last_used_at : Option ℕ
  pub revoked_at : Option ℕ
  pub user_id : Option ℕ

pub record Registry : Type 0 where
  pub users : List User
  pub next_user : ℕ
  pub repos : List Repo
  pub members : List Member
  pub tokens : List Token
  pub next_token : ℕ

abbrev pub user_is : ℕ → User → Bool
user_is id u = u.id == id

abbrev pub user_named : String → User → Bool
user_named name u = u.name == name

abbrev pub repo_is : ℕ → Repo → Bool
repo_is id r = r.id == id

abbrev pub member_is : ℕ → ℕ → Member → Bool
member_is repo user m = m.repo_id == repo && m.user_id == user

-- FROM repos JOIN users ON users.id = repos.owner_id WHERE repos.id = ?, the owner's row
abbrev pub owner_row : Registry → Repo → Option User
owner_row g r = select_first (user_is r.owner_id) g.users

-- The two names of the joined row: the visibility and the owner's name.
unfoldable pub repo_row : Registry → ℕ → Option (String × String)
repo_row g id = elim (select_first (repo_is id) g.repos) [
  | none ↦ none
  | some r ↦ elim (owner_row g r) [ none ↦ none | some u ↦ some (r.visibility, u.name) ]
]

-- repos JOIN users ON users.id = repos.owner_id WHERE users.name = ? AND repos.name = ?
abbrev pub owned_by : Registry → String → String → Repo → Bool
owned_by g owner name r =
    r.name == name && exists (λ u. u.id == r.owner_id && u.name == owner) g.users

unfoldable pub lookup_repo : Registry → String → String → Result ℕ
lookup_repo g owner name = elim (select_first (owned_by g owner name) g.repos) [
  | none ↦ err not_found
  | some r ↦ ok r.id
]

-- FROM repo_members JOIN users ON users.id = repo_members.user_id
-- WHERE repo_members.repo_id = ? AND users.name = ?
abbrev pub membership : Registry → ℕ → String → Member → Bool
membership g repo caller m =
    m.repo_id == repo && exists (λ u. u.id == m.user_id && u.name == caller) g.users

unfoldable pub can_access_repo : Registry → ℕ → String → Result Bool
unfolding repo_row
can_access_repo g repo caller = do
  (vis, owner) ← found (repo_row g repo) not_found
  ok (
      if vis == "public"
      then true
      else if owner == caller
      then true
      else ltb 0 (count (membership g repo caller) g.members))

unfoldable pub can_write_repo : Registry → ℕ → String → Result Bool
unfolding repo_row
can_write_repo g repo caller = do
  (vis, owner) ← found (repo_row g repo) not_found
  ok (
      if owner == caller
      then true
      else ltb 0 (count (λ m. membership g repo caller m && m.role == "write") g.members))

-- strings.EqualFold is a parameter.
unfoldable pub is_repo_owner : (String → String → Bool) → Registry → ℕ → String → Result Bool
unfolding repo_row
is_repo_owner equal_fold g repo caller = do
  (vis, owner) ← found (repo_row g repo) not_found
  ok (equal_fold owner caller)

unfoldable pub repo_is_private : Registry → ℕ → Result Bool
repo_is_private g repo = do
  r ← found (select_first (repo_is repo) g.repos) not_found
  ok (r.visibility == "private")

unfoldable pub set_repo_visibility : Registry → ℕ → String → Result Registry
set_repo_visibility g repo visibility =
    if visibility == "public" || visibility == "private"
    then affected (count (repo_is repo) g.repos) (record g {
      repos = update (repo_is repo) (λ r. record r { visibility = visibility }) g.repos;
    })
    else err invalid_input

-- INSERT … ON CONFLICT(repo_id, user_id) DO UPDATE SET role = excluded.role
upsert_member : Member → List Member → List Member
upsert_member m members =
    if exists (member_is m.repo_id m.user_id) members
    then update (member_is m.repo_id m.user_id) (λ old. record old { role = m.role }) members
    else members ++ m ∷ []

-- The foreign key on repo_id fails for a repository that is not there.
unfoldable pub add_repo_member : Registry → ℕ → ℕ → String → String → Result Registry
unfolding upsert_member
add_repo_member g now repo username role =
    if not (role == "read") && not (role == "write") then err invalid_input else do
      u ← found (select_first (user_named username) g.users) not_found
      if not (exists (repo_is repo) g.repos)
          then err constraint_failed
          else ok (record g {
            members =
                upsert_member
                  (record { repo_id = repo; user_id = u.id; role = role; created_at = now })
                  g.members;
          })

-- user_id = (SELECT id FROM users WHERE name = ?); no row has the id of an unknown user
member_of : Registry → ℕ → String → Member → Bool
member_of g repo username m = elim (select_first (user_named username) g.users) [
  | none ↦ false
  | some u ↦ member_is repo u.id m
]

unfoldable pub remove_repo_member : Registry → ℕ → String → Result Registry
unfolding member_of
remove_repo_member g repo username =
    affected (count (member_of g repo username) g.members)
      (record g { members = delete (member_of g repo username) g.members })
