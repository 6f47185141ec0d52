-- ===== src/Access/Examples.antt =====
-- Examples for access: ann owns the private repository ann/tool, and bob may read it.
use Prim.Native.String
use Prim.Native.String.{◌++◌}
use codefort.Base.{
  Option, if◌then◌else◌, String, false, none, some, List, [], ◌∷◌, ◌≡◌, ◌≢◌, refl, ap, ◌⊎◌, inl,
  inr, arith, ◌==◌, string_eq, eq_iff,
}
use codefort.Storage.{ok}
use codefort.Access.{User, Repo, Member, Token, Registry, lookup_repo}
use codefort.Access.Paths.{trim_prefix, repo_from_path, trim_suffix, has_suffix}
use codefort.Access.Paths.Naming.{repo_from_path_round_trip, path_of}
use codefort.Access.Rights.{MayRead, anyone, owner_reads, member_reads}
use codefort.Access.Tokens.{
  Platform, Identity, login_user, revoke_token_by_id, bearer_token, revoke,
}
use codefort.Access.Gate.{
  Answer, Request, Handler, failure, challenge, write_required, principal_from_context,
  git_identity, is_git_write, with_auth, with_repo_access, with_git_repo_access,
}
use codefort.Access.Gate.Refinement.{Resolves, Decided, with_git_repo_access-decides}
use codefort.Access.Gate.Hidden.{outsider_sees_nothing}
use codefort.Access.Members.{
  decoded, no_content, lookup_repo_or_fail, after_checks, handle_add_member, owners_only,
}
use codefort.Access.Members.Sessions.{owner_session_refused}
use codefort.Access.Sessions.{
  revokes, touches, perform_all, login_user_only_once, revoked_token_refused,
}

text_ne : (s t : String) → (s == t) ≡ false → s ≢ t
text_ne s t d e = ground (arith, (eq_iff s t).1 e)

abbrev ann : User
ann = record { id = 1; name = "ann"; password_hash = some "secret" }

abbrev bob : User
bob = record { id = 2; name = "bob"; password_hash = none }

abbrev tool : Repo
tool = record { id = 7; owner_id = 1; name = "tool"; visibility = "private" }

abbrev bob_reads : Member
bob_reads = record { repo_id = 7; user_id = 2; role = "read"; created_at = 5 }

abbrev bob_token : Token
bob_token = record {
  id = 1;
  name = "bob";
  hashed_token = "cf_bob";
  created_at = 5;
  last_used_at = none;
  revoked_at = none;
  user_id = some 2;
}

abbrev world : List Member → Registry
world members = record {
  users = ann ∷ bob ∷ [];
  next_user = 3;
  repos = tool ∷ [];
  members = members;
  tokens = bob_token ∷ [];
  next_token = 2;
}

-- The platform of the examples: nothing is trimmed, and digests are the texts themselves.
abbrev plain : Platform
plain = record {
  trim_space = λ s. s;
  digest = λ s. s;
  password_hash = λ s. some s;
  password_matches = λ h s. h == s;
}

abbrev identity : String → String → Identity
identity name account = record { id = 1; name = name; user_name = account; last_used_at = none }

abbrev request : String → String → String → Identity → Request
request verb path authorization who = record {
  verb = verb;
  path = path;
  service = "";
  authorization = authorization;
  basic = none;
  caller = some who;
}

abbrev served : Handler
served g r = (g, no_content)

resolves : Resolves (world (bob_reads ∷ [])) "ann" "tool" tool ann
resolves = record { named = refl; row = refl; owned = refl }

repo_from_path_round_trip_example :
    (repo_from_path (path_of "/api/repos" "ann" "tool" "/issues") "/api/repos"
      ≡ some ("ann", "tool"))
    × (repo_from_path (path_of "/api/repos" "ann" ("tool" ++ ".git") "/issues") "/api/repos"
        ≡ some ("ann", "tool"))
unfolding has_suffix
repo_from_path_round_trip_example =
    repo_from_path_round_trip "/api/repos" "ann" "tool" "/issues" (omega arith) (omega arith)
      (text_ne "ann" "" refl) (text_ne "tool" "" refl) (inr ("issues", refl)) refl

-- A stranger to the private repository, against tables that do not have it.
abbrev empty : Registry
empty = record (world []) { repos = [] }

stranger_is_out : ¬ MayRead (world (bob_reads ∷ [])) tool ann "eve"
stranger_is_out (anyone e) = text_ne "private" "public" refl e
stranger_is_out (owner_reads e) = text_ne "ann" "eve" refl e
stranger_is_out (member_reads (inl (e, inl (f, h)))) = text_ne "ann" "eve" refl h
stranger_is_out (member_reads (inl (e, inr (inl (f, h))))) = text_ne "bob" "eve" refl h
stranger_is_out (member_reads (inl (e, inr (inr h)))) = h
stranger_is_out (member_reads (inr h)) = h

abbrev prying : Request
prying = request "GET" "/api/repos/ann/tool/issues" "" (identity "eve" "eve")

-- The check of a number in the path, which is there.
abbrev positive_number : Request → Option Answer
positive_number r =
    if r.path == ""
    then some (record { status = 400; message = "invalid issue number"; challenge = false })
    else none

outsider_sees_nothing_example :
    ((with_repo_access
        (after_checks positive_number (lookup_repo_or_fail "ann" "tool" (λ id. served)))
        (world (bob_reads ∷ []))
        prying).1
      ≡ (with_repo_access
          (after_checks positive_number (lookup_repo_or_fail "ann" "tool" (λ id. served)))
          empty
          prying).1)
    × ((with_repo_access
          (after_checks positive_number (lookup_repo_or_fail "ann" "tool" (λ id. served)))
          (world (bob_reads ∷ []))
          prying).0
        ≡ world (bob_reads ∷ []))
unfolding trim_suffix repo_from_path principal_from_context lookup_repo
outsider_sees_nothing_example =
    outsider_sees_nothing positive_number (λ id. served) (world (bob_reads ∷ [])) empty prying "ann"
      "tool" "tool" tool ann resolves refl refl stranger_is_out refl refl

-- ann, signed in by a login, adds bob.
abbrev inviting : Request
inviting = request "POST" "/api/repos/ann/tool/members" "" (identity "ann-session" "ann")

owner_session_refused_example :
    with_repo_access
      (handle_add_member (λ s t. s == t) 9 "ann" "tool" (decoded "bob" "read"))
      (world [])
      inviting
    ≡ (world [], owners_only)
unfolding trim_suffix repo_from_path
owner_session_refused_example =
    owner_session_refused (λ s t. s == t) (λ s t e. ap String.count ((eq_iff s t).0 e)) (world [])
      inviting "ann" "tool" "tool" tool ann (identity "ann-session" "ann") 9 (decoded "bob" "read")
      (record { named = refl; row = refl; owned = refl }) refl refl
      (record { carried = refl; account = refl; named = refl; not_empty = text_ne "ann" "" refl })

-- bob's token with a push to the private repository.
abbrev pushing : Request
pushing = record (request "POST" "/ann/tool.git/git-receive-pack" "" (identity "" "")) {
  basic = some ("git", "cf_bob");
}

with_git_repo_access-decides_example :
    ((tool.visibility ≢ "private")
      × (with_git_repo_access plain served (world (bob_reads ∷ [])) pushing
          ≡ served (world (bob_reads ∷ [])) pushing))
    ⊎ ((tool.visibility ≡ "private")
        × (((git_identity plain (world (bob_reads ∷ [])) pushing ≡ none)
              × (with_git_repo_access plain served (world (bob_reads ∷ [])) pushing
                  ≡ (world (bob_reads ∷ []), challenge "authentication required")))
            ⊎ ((who : String) × (git_identity plain (world (bob_reads ∷ [])) pushing ≡ some who)
                × Decided
                    (world (bob_reads ∷ []))
                    tool
                    ann
                    who
                    (is_git_write pushing)
                    (with_git_repo_access plain served (world (bob_reads ∷ [])) pushing)
                    (served (world (bob_reads ∷ [])) pushing)
                    (world (bob_reads ∷ []), write_required "ann" "tool")
                    (world (bob_reads ∷ []), failure 404 "404 page not found"))))
unfolding repo_from_path
with_git_repo_access-decides_example =
    with_git_repo_access-decides served (world (bob_reads ∷ [])) pushing "ann" "tool" tool ann
      resolves plain refl

abbrev signed_in : Registry
signed_in = record (world []) {
  tokens =
      bob_token
      ∷ record {
        id = 2;
        name = "ann-session";
        hashed_token = "cf_1";
        created_at = 10;
        last_used_at = none;
        revoked_at = none;
        user_id = some 1;
      }
      ∷ [];
  next_token = 3;
}

abbrev revoked : Registry
revoked = record (world []) { tokens = revoke 500 bob_token ∷ [] }

login_user_only_once_example :
    login_user plain
      (perform_all plain (λ s t. false) (revokes 20 "ann-session" ∷ []) (signed_in))
      30
      "ann"
      "secret"
      "cf_2"
    ≢ ok ("cf_2", signed_in)
unfolding login_user
login_user_only_once_example =
    login_user_only_once plain (λ s t. false) (world []) 10 30 "ann" "secret" "secret" "cf_1" "cf_2"
      ("cf_1", signed_in) ("cf_2", signed_in) (revokes 20 "ann-session" ∷ []) refl

abbrev by_bob : Request
by_bob = request "GET" "/api/issues" "Bearer cf_bob" (identity "" "")

revoked_token_refused_example :
    with_auth plain 900 served
      (perform_all plain (λ s t. false) (touches 600 1 ∷ []) revoked)
      by_bob
    ≡ (perform_all plain (λ s t. false) (touches 600 1 ∷ []) revoked, failure 401 "invalid token")
unfolding bearer_token revoke_token_by_id trim_prefix
revoked_token_refused_example =
    revoked_token_refused plain (λ s t. false) served (world []) revoked 500 900 "cf_bob" bob_token
      by_bob (touches 600 1 ∷ []) refl refl (inr refl)
