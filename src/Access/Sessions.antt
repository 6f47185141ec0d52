-- ===== src/Access/Sessions.antt =====
-- Tokens over time: what every call of tokens.go and users.go keeps of the token rows.
use Prim.Native.String.{◌++◌}
use mathlib.Core.List
use codefort.Base.{
  ◌⊎◌, nat_beq_iff, ℕ, String, Bool, true, none, some, List, [], ◌∷◌, ◌≡◌, ◌≢◌, refl, ◌∙◌, ◌==◌,
  string_eq, nat_eq, eq_iff, Bool-cases, Option-cases, if◌then◌else◌, count, exists, update,
  select_first, select_first-append, select_first-update, arith, ℤ, inl, inr, positive_seconds,
}
use codefort.Storage.{Result, ok, err, not_found, after, Result-cases}
use codefort.Access.{Token, Registry, user_named}
use codefort.Access.Tokens.{
  Platform, token, token_named, conflicts, is_revoked, token_row, with_user, token_is, revoke,
  create_token, lookup_token, register_user, login_user, bearer_token, touch_token, revoke_token,
  revoke_token_by_id, revoke_agent_run_tokens, revoke_stale_agent_tokens,
}
use codefort.Access.Gate.{Request, Handler, failure, with_auth}

-- The calls that write the tokens table.
pub data Call : Type 0 where
  creates : ℕ → String → String → Call
  registers logs_in : ℕ → String → String → String → Call
  touches : ℕ → ℕ → Call
  revokes : ℕ → String → Call
  revokes_id : ℕ → ℕ → Call
  sweeps_runs : ℕ → Call
  sweeps_stale : ℕ → ℤ → Call

-- The registry of a successful write, or the old one.
abbrev written : Registry → Result Registry → Registry
written g (ok g') = g'
written g (err e) = g

-- An edit of a row that keeps its name and its digest, and does not bring it back to life.
record IsHarmless (t t' : Token) : Type 0 where
  same_name : t'.name ≡ t.name
  same_digest : t'.hashed_token ≡ t.hashed_token
  stays_revoked : is_revoked t ≡ true → is_revoked t' ≡ true

dead : (now : ℕ) (t : Token) → IsHarmless t (revoke now t)
dead now t = record { same_name = refl; same_digest = refl; stays_revoked = λ h. refl }

touched : {now : ℕ} (t : Token) → IsHarmless t (record t { last_used_at = some now })
touched t = record { same_name = refl; same_digest = refl; stays_revoked = λ h. h }

data Evolves (xs : List Token) : List Token → Type 0 where
  kept : {ys : List Token} → ys ≡ xs → Evolves xs ys
  edited :
      {ys : List Token} (p : Token → Bool) (f : Token → Token)
      → ((t : Token) → IsHarmless t (f t))
      → ys ≡ update p f xs
      → Evolves xs ys
  added : {ys : List Token} (t : Token) → ys ≡ List.◌++◌ xs (t ∷ []) → Evolves xs ys

-- Neither the names in use nor a revocation is ever lost.
exists-Evolves :
    (name : String) {xs ys : List Token}
    → Evolves xs ys
    → exists (token_named name) xs ≡ true
    → exists (token_named name) ys ≡ true
exists-Evolves name (kept e) h = rw e h
exists-Evolves name {xs} (edited p f keeps e) h = rw e (renamed xs h)
  where
    renamed :
        (xs : List Token)
        → exists (token_named name) xs ≡ true
        → exists (token_named name) (update p f xs) ≡ true
    renamed [] h = h
    renamed (t ∷ ts) h = ground (arith, (keeps t).same_name, renamed ts)
exists-Evolves name {xs} (added n e) h = rw e (longer xs h)
  where
    longer :
        (xs : List Token)
        → exists (token_named name) xs ≡ true
        → exists (token_named name) (List.◌++◌ xs (n ∷ [])) ≡ true
    longer [] h = cc
    longer (t ∷ ts) h = ground (arith, longer ts)

-- The first row with a digest is a revoked one.
abbrev IsDead : String → List Token → Type 0
IsDead digest xs =
    (t : Token) × (select_first (λ x. x.hashed_token == digest) xs ≡ some t) × (is_revoked t ≡ true)

IsDead-Evolves :
    (digest : String) {xs ys : List Token} → Evolves xs ys → IsDead digest xs → IsDead digest ys
IsDead-Evolves digest (kept e) h = rw e h
IsDead-Evolves digest {xs} (edited p f keeps e) (t, sel, dead) = rw e (
  (if p t then f t else t),
  select_first-update (λ x. x.hashed_token == digest) p f xs t (λ x. rw (keeps x).same_digest refl)
      sel,
  ground (arith, (keeps t).stays_revoked dead),
)
IsDead-Evolves digest {xs} (added n e) (t, sel, dead) =
    rw e (t, select_first-append (λ x. x.hashed_token == digest) xs (n ∷ []) t sel, dead)

module _ (p : Platform) (like : String → String → Bool) where
  unfoldable pub perform : Call → Registry → Registry
  perform (creates now name plain) g = after g (create_token p g now name plain)
  perform (registers now name password plain) g =
      after g (register_user p g now name password plain)
  perform (logs_in now name password plain) g = after g (login_user p g now name password plain)
  perform (touches now id) g = touch_token g now id
  perform (revokes now name) g = written g (revoke_token g now name)
  perform (revokes_id now id) g = written g (revoke_token_by_id g now id)
  perform (sweeps_runs now) g = (revoke_agent_run_tokens like g now).1
  perform (sweeps_stale now ttl) g = (revoke_stale_agent_tokens like g now ttl).1

  pub perform_all : List Call → Registry → Registry
  perform_all [] g = g
  perform_all (c ∷ cs) g = perform_all cs (perform c g)

  create_token-Evolves :
      (g : Registry) (now : ℕ) (name plain : String)
      → Evolves g.tokens (after g (create_token p g now name plain)).tokens
  unfolding create_token
  create_token-Evolves g now name plain = elim (Result-cases (create_token p g now name plain)) [
    | inr (e, failed) ↦ kept (ground (arith, failed))
    | inl (r, done) ↦
        added (token_row g now (p.trim_space name) (p.digest plain) none) (ground (arith, done))
  ]

  register_user-Evolves :
      (g : Registry) (now : ℕ) (name password plain : String)
      → Evolves g.tokens (after g (register_user p g now name password plain)).tokens
  unfolding register_user
  register_user-Evolves g now name password plain =
      elim (Result-cases (register_user p g now name password plain)) [
        | inr (e, failed) ↦ kept (ground (arith, failed))
        | inl (r, done) ↦ elim (Option-cases (p.password_hash password)) [
          | inl unhashed ↦ absurd (ground (arith, done, unhashed))
          | inr (hash, hashed) ↦
              added
                (token_row (with_user g (p.trim_space name) hash) now (p.trim_space name)
                  (p.digest plain) (some g.next_user))
                (ground (arith, done, hashed))
        ]
      ]

  login_user-Evolves :
      (g : Registry) (now : ℕ) (name password plain : String)
      → Evolves g.tokens (after g (login_user p g now name password plain)).tokens
  unfolding login_user
  login_user-Evolves g now name password plain =
      elim (Option-cases (select_first (user_named name) g.users)) [
        | inl unknown ↦ kept (ground (arith, unknown))
        | inr (u, known) ↦ elim (Result-cases (login_user p g now name password plain)) [
          | inr (e, failed) ↦ kept (ground (arith, failed))
          | inl (r, done) ↦
              added (token_row g now (name ++ "-session") (p.digest plain) (some u.id))
                (ground (arith, done, known))
        ]
      ]

  perform-Evolves : (c : Call) (g : Registry) → Evolves g.tokens (perform c g).tokens
  unfolding perform touch_token revoke_token revoke_token_by_id revoke_agent_run_tokens
      revoke_stale_agent_tokens
  perform-Evolves (creates now name plain) g = create_token-Evolves g now name plain
  perform-Evolves (registers now name password plain) g =
      register_user-Evolves g now name password plain
  perform-Evolves (logs_in now name password plain) g = login_user-Evolves g now name password plain
  perform-Evolves (touches now id) g = edited _ _ touched refl
  perform-Evolves (revokes now name) g =
      elim (Bool-cases (count (token_named name) g.tokens == 0)) [
        | inl e ↦ rw e (kept refl)
        | inr e ↦ rw e (edited _ _ (dead now) refl)
      ]
  perform-Evolves (revokes_id now id) g = elim (Bool-cases (count (token_is id) g.tokens == 0)) [
    | inl e ↦ rw e (kept refl)
    | inr e ↦ rw e (edited _ _ (dead now) refl)
  ]
  perform-Evolves (sweeps_runs now) g = edited _ _ (dead now) refl
  perform-Evolves (sweeps_stale now ttl) g = elim (Option-cases (positive_seconds ttl)) [
    | inl e ↦ rw (perform, e) (kept refl)
    | inr (s, e) ↦ rw (perform, e) (edited _ _ (dead now) refl)
  ]

  used_for_ever :
      (name : String) (cs : List Call) (g : Registry)
      → exists (token_named name) g.tokens ≡ true
      → exists (token_named name) (perform_all cs g).tokens ≡ true
  unfolding perform_all
  used_for_ever name [] g h = h
  used_for_ever name (c ∷ cs) g h =
      used_for_ever name cs (perform c g) (exists-Evolves name (perform-Evolves c g) h)

  IsDead-for_ever :
      (digest : String) (cs : List Call) (g : Registry)
      → IsDead digest g.tokens
      → IsDead digest (perform_all cs g).tokens
  unfolding perform_all
  IsDead-for_ever digest [] g h = h
  IsDead-for_ever digest (c ∷ cs) g h =
      IsDead-for_ever digest cs (perform c g) (IsDead-Evolves digest (perform-Evolves c g) h)

  named_after :
      (xs : List Token) (n : Token) (name : String)
      → n.name ≡ name
      → exists (token_named name) (List.◌++◌ xs (n ∷ [])) ≡ true
  named_after [] n name e = ground (arith, eq_iff n.name name)
  named_after (x ∷ xs) n name e = ground (arith, named_after xs n name e)

  login_user_names :
      (g : Registry) (now : ℕ) (name password plain : String) (r : String × Registry)
      → login_user p g now name password plain ≡ ok r
      → exists (token_named (name ++ "-session")) r.1.tokens ≡ true
  unfolding login_user
  login_user_names g now name password plain r done =
      elim (Option-cases (select_first (user_named name) g.users)) [
        | inl unknown ↦ absurd (ground (arith, unknown))
        | inr (u, known) ↦ ground (
          arith,
          known,
          named_after g.tokens (token_row g now (name ++ "-session") (p.digest plain) (some u.id))
              (name ++ "-session") refl,
        )
      ]

  conflicts_named :
      (name digest : String) (xs : List Token)
      → exists (token_named name) xs ≡ true
      → exists (conflicts name digest) xs ≡ true
  conflicts_named name digest [] h = h
  conflicts_named name digest (x ∷ xs) h = ground (arith, conflicts_named name digest xs)

  login_refused :
      (g : Registry) (now : ℕ) (name password plain : String) (r : String × Registry)
      → exists (conflicts (name ++ "-session") (p.digest plain)) g.tokens ≡ true
      → login_user p g now name password plain ≢ ok r
  unfolding login_user
  login_refused g now name password plain r taken e =
      elim (Option-cases (select_first (user_named name) g.users)) [
        | inl unknown ↦ ground (arith, unknown)
        | inr (u, known) ↦ ground (arith, known)
      ]

  -- After one successful login of a user no later login of that user succeeds, with whatever
  -- password, new token text and calls on tokens in between, revocations included: the row of the
  -- first session keeps the session's name, which must be unique.
  pub login_user_only_once :
      (g : Registry) (now now' : ℕ) (name password password' plain plain' : String)
      (r r' : String × Registry) (cs : List Call)
      → login_user p g now name password plain ≡ ok r
      → login_user p (perform_all cs r.1) now' name password' plain' ≢ ok r'
  login_user_only_once g now now' name password password' plain plain' r r' cs done =
      let g' = perform_all cs r.1 in
      let taken = conflicts_named (name ++ "-session") (p.digest plain') g'.tokens (
        used_for_ever (name ++ "-session") cs r.1
          (login_user_names g now name password plain r done)) in
      login_refused g' now' name password' plain' r' taken

  revoke_token_kills :
      (g g' : Registry) (now : ℕ) (name digest : String) (t : Token)
      → select_first (λ x. x.hashed_token == digest) g.tokens ≡ some t
      → t.name ≡ name
      → revoke_token g now name ≡ ok g'
      → IsDead digest g'.tokens
  unfolding revoke_token
  revoke_token_kills g g' now name digest t sel named done =
      let is : update (token_named name) (revoke now) g.tokens ≡ g'.tokens = ground arith in
      rw (← is) (
        revoke now t,
        select_first-update (λ x. x.hashed_token == digest) (token_named name) (revoke now) g.tokens
              t (λ x. refl) sel
            ∙ ground (arith, eq_iff t.name name),
        refl,
      )

  lookup_dead :
      (g : Registry) (raw : String)
      → IsDead (p.digest raw) g.tokens
      → lookup_token p g raw ≡ err not_found
  unfolding lookup_token
  lookup_dead g raw (t, sel, dead) = ground (arith, sel, dead)

  revoke_token_by_id_kills :
      (g g' : Registry) (now : ℕ) (digest : String) (t : Token)
      → select_first (λ x. x.hashed_token == digest) g.tokens ≡ some t
      → revoke_token_by_id g now t.id ≡ ok g'
      → IsDead digest g'.tokens
  unfolding revoke_token_by_id
  revoke_token_by_id_kills g g' now digest t sel done =
      let is : update (token_is t.id) (revoke now) g.tokens ≡ g'.tokens = ground arith in
      rw (← is) (
        revoke now t,
        select_first-update (λ x. x.hashed_token == digest) (token_is t.id) (revoke now) g.tokens t
              (λ x. refl) sel
            ∙ ground (arith, nat_beq_iff t.id t.id),
        refl,
      )

  revocation_kills :
      (g g' : Registry) (now : ℕ) (digest : String) (t : Token)
      → select_first (λ x. x.hashed_token == digest) g.tokens ≡ some t
      → (revoke_token g now t.name ≡ ok g') ⊎ (revoke_token_by_id g now t.id ≡ ok g')
      → IsDead digest g'.tokens
  revocation_kills g g' now digest t sel (inl done) =
      revoke_token_kills g g' now t.name digest t sel refl done
  revocation_kills g g' now digest t sel (inr done) =
      revoke_token_by_id_kills g g' now digest t sel done

  -- A token that was revoked by its name or by its id never authenticates again: whatever calls on
  -- tokens follow, a request that carries it gets the 401 of an invalid token, the handler is not
  -- reached, and nothing is written.
  pub revoked_token_refused :
      (next : Handler) (g g' : Registry) (now now' : ℕ) (raw : String) (t : Token) (req : Request)
      (cs : List Call)
      → bearer_token p req.authorization ≡ token raw
      → select_first (λ x. x.hashed_token == p.digest raw) g.tokens ≡ some t
      → (revoke_token g now t.name ≡ ok g') ⊎ (revoke_token_by_id g now t.id ≡ ok g')
      → with_auth p now' next (perform_all cs g') req
        ≡ (perform_all cs g', failure 401 "invalid token")
  unfolding with_auth
  revoked_token_refused next g g' now now' raw t req cs carried sel done =
      rw
        (
          with_auth,
          carried,
          lookup_dead (perform_all cs g') raw (
              IsDead-for_ever (p.digest raw) cs g'
                (revocation_kills g g' now (p.digest raw) t sel done)),
        )
        refl
