-- ===== src/Access/Tokens.antt =====
-- internal/storage/tokens.go and users.go, and the credential checks of internal/server/auth.go. The
-- SHA-256 digest, bcrypt, the random text of a new token and strings.TrimSpace are parameters.
use Prim.Native.String.{◌++◌, len}
use text.Mathlib.Text.{starts_with}
use mathlib.Core.List
use codefort.Base.{
  ℕ, suc, ◌+◌, String, Bool, true, false, not, ◌&&◌, ◌||◌, Option, none, some, [], ◌∷◌, ◌==◌,
  nat_eq, string_eq, if◌then◌else◌, ltb, leb, select_first, update, count, exists, ℤ,
  positive_seconds,
}
use codefort.Storage.{
  not_found, name_required, token_exists, user_exists, bad_credentials, no_password,
  password_too_short, hash_failed, constraint_failed, Result, ok, err, ◌>>=◌, affected, found,
}
use codefort.Access.{Token, Registry, user_is, user_named}
use codefort.Access.Paths.{trim_prefix}

pub record Platform : Type 0 where
  pub trim_space : String → String
  pub digest : String → String
  pub password_hash : String → Option String
  pub password_matches : String → String → Bool

-- What LookupToken returns, less the times that no caller reads.
pub record Identity : Type 0 where
  pub id : ℕ
  pub name : String
  pub user_name : String
  pub last_used_at : Option ℕ

-- The token of an Authorization header, or the message of the 401. A header that is absent is empty.
pub data Bearer : Type 0 where
  token refused : String → Bearer

abbrev pub token_named : String → Token → Bool
token_named name t = t.name == name

abbrev pub token_is : ℕ → Token → Bool
token_is id t = t.id == id

-- UNIQUE (name) and UNIQUE (hashed_token)
abbrev pub conflicts : String → String → Token → Bool
conflicts name hashed t = t.name == name || t.hashed_token == hashed

abbrev pub token_row : Registry → ℕ → String → String → Option ℕ → Token
token_row g now name hashed user = record {
  id = g.next_token;
  name = name;
  hashed_token = hashed;
  created_at = now;
  last_used_at = none;
  revoked_at = none;
  user_id = user;
}

-- INSERT INTO tokens(name, hashed_token, user_id)
abbrev pub insert_token : Registry → ℕ → String → String → Option ℕ → Result (ℕ × Registry)
insert_token g now name hashed user =
    if exists (conflicts name hashed) g.tokens
    then err constraint_failed
    else ok (
      g.next_token,
      record g {
        tokens = List.◌++◌ g.tokens (token_row g now name hashed user ∷ []);
        next_token = suc g.next_token;
      },
    )

abbrev pub is_revoked : Token → Bool
is_revoked t = elim t.revoked_at [ none ↦ false | some _ ↦ true ]

-- users.name of the LEFT JOIN, the empty text for NULL
abbrev pub account_of : Registry → Option ℕ → String
account_of g none = ""
account_of g (some id) = elim (select_first (user_is id) g.users) [ none ↦ "" | some u ↦ u.name ]

abbrev pub identity_of : Registry → Token → Identity
identity_of g t = record {
  id = t.id;
  name = t.name;
  user_name = account_of g t.user_id;
  last_used_at = t.last_used_at;
}

-- INSERT INTO users(name, password_hash)
abbrev pub with_user : Registry → String → String → Registry
with_user g name hash = record g {
  users =
      List.◌++◌ g.users (record { id = g.next_user; name = name; password_hash = some hash } ∷ []);
  next_user = suc g.next_user;
}

module _ (p : Platform) where
  unfoldable pub create_token : Registry → ℕ → String → String → Result (ℕ × Registry)
  create_token g now name plaintext =
      let trimmed = p.trim_space name in
      if trimmed == ""
      then err name_required
      else elim (insert_token g now trimmed (p.digest plaintext) none) [
        | err e ↦ err token_exists
        | ok r ↦ ok r
      ]

  unfoldable pub lookup_token : Registry → String → Result Identity
  lookup_token g plaintext = do
    t ← found (select_first (λ t. t.hashed_token == p.digest plaintext) g.tokens) not_found
    if is_revoked t then err not_found else ok (identity_of g t)

  -- GenerateTokenString's text is `plain`.
  unfoldable pub register_user :
      Registry → ℕ → String → String → String → Result (String × Registry)
  register_user g now username password plain =
      let name = p.trim_space username in
      if name == ""
      then err name_required
      else if ltb (len password) 8
      then err password_too_short
      else do
        hash ← found (p.password_hash password) hash_failed
        if exists (user_named name) g.users then err user_exists else do
          (id, g') ←
              insert_token (with_user g name hash) now name (p.digest plain) (some g.next_user)
          ok (plain, g')

  unfoldable pub login_user : Registry → ℕ → String → String → String → Result (String × Registry)
  login_user g now username password plain = do
    u ← found (select_first (user_named username) g.users) bad_credentials
    elim u.password_hash [
      | none ↦ err no_password
      | some h ↦
          if h == ""
          then err no_password
          else if p.password_matches h password
          then insert_token g now (username ++ "-session") (p.digest plain) (some u.id)
            >>= (λ r. ok (plain, r.1))
          else err bad_credentials
    ]

  unfoldable pub bearer_token : String → Bearer
  bearer_token header =
      if header == ""
      then refused "missing Authorization header"
      else if not (starts_with header "Bearer ")
      then refused "Authorization header must use Bearer scheme"
      else let raw = p.trim_space (trim_prefix header "Bearer ") in
        if raw == "" then refused "empty bearer token" else token raw

unfoldable pub touch_token : Registry → ℕ → ℕ → Registry
touch_token g now id = record g {
  tokens = update (token_is id) (λ t. record t { last_used_at = some now }) g.tokens;
}

abbrev pub revoke : ℕ → Token → Token
revoke now t = record t { revoked_at = some now }

unfoldable pub revoke_token : Registry → ℕ → String → Result Registry
revoke_token g now name =
    affected (count (token_named name) g.tokens)
      (record g { tokens = update (token_named name) (revoke now) g.tokens })

unfoldable pub revoke_token_by_id : Registry → ℕ → ℕ → Result Registry
revoke_token_by_id g now id =
    affected (count (token_is id) g.tokens)
      (record g { tokens = update (token_is id) (revoke now) g.tokens })

-- name LIKE 'agent-run-%' AND revoked_at IS NULL. LIKE ignores the case of ASCII letters.
unfoldable pub revoke_agent_run_tokens : (String → String → Bool) → Registry → ℕ → ℕ × Registry
revoke_agent_run_tokens like g now =
    let active = λ (t : Token). like t.name "agent-run-%" && not (is_revoked t) in
    (count active g.tokens, record g { tokens = update active (revoke now) g.tokens })

abbrev last_activity : Token → ℕ
last_activity t = elim t.last_used_at [ none ↦ t.created_at | some s ↦ s ]

unfoldable pub revoke_stale_agent_tokens :
    (String → String → Bool) → Registry → ℕ → ℤ → ℕ × Registry
revoke_stale_agent_tokens like g now ttl = elim (positive_seconds ttl) [
  | none ↦ (0, g)
  | some seconds ↦
      let stale = λ (t : Token).
        not (is_revoked t) && like t.name "agent#%" && leb (last_activity t + seconds) now in
      (count stale g.tokens, record g { tokens = update stale (revoke now) g.tokens })
]

unfoldable pub count_active_tokens : Registry → ℕ
count_active_tokens g = count (λ t. not (is_revoked t)) g.tokens
