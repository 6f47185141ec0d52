-- ===== src/Access/Rights.antt =====
-- Who may read and write a repository, without the SQL: the checks decide these relations.
use codefort.Base.{
  Any, ℕ, String, Bool, true, false, ◌&&◌, some, List, [], ◌∷◌, ◌≡◌, refl, ◌↔◌, ◌⊎◌, inl, inr, ◌==◌,
  nat_eq, string_eq, eq_iff, nat_beq_iff, Bool-cases, if◌then◌else◌, ltb, count, exists,
  select_first, arith,
}
use codefort.Storage.{ok}
use codefort.Access.{
  User, Repo, Member, Registry, repo_is, owner_row, repo_row, membership, can_access_repo,
  can_write_repo,
}

-- The row of a user called `caller` is the one that the membership names.
abbrev pub IsMember : Registry → ℕ → String → Member → Type 0
IsMember g repo caller m =
    (m.repo_id ≡ repo) × Any (λ (u : User). (u.id ≡ m.user_id) × (u.name ≡ caller)) g.users

pub data MayRead (g : Registry) (r : Repo) (owner : User) (caller : String) : Type 0 where
  anyone : r.visibility ≡ "public" → MayRead g r owner caller
  owner_reads : owner.name ≡ caller → MayRead g r owner caller
  member_reads : Any (IsMember g r.id caller) g.members → MayRead g r owner caller

pub data MayWrite (g : Registry) (r : Repo) (owner : User) (caller : String) : Type 0 where
  owner_writes : owner.name ≡ caller → MayWrite g r owner caller
  member_writes :
      Any (λ m. IsMember g r.id caller m × (m.role ≡ "write")) g.members → MayWrite g r owner caller

pub exists_iff :
    {A : Type 0} (p : A → Bool) (P : A → Type 0)
    → ((x : A) → (p x ≡ true) ↔ P x)
    → (xs : List A) → (exists p xs ≡ true) ↔ Any P xs
exists_iff p P h [] = (λ e. cc, λ a. elim a [ ])
exists_iff p P h (x ∷ xs) = elim (Bool-cases (p x)) [
  | inl e ↦ rw e ((λ _. inl ((h x).0 e)), (λ _. refl))
  | inr e ↦ rw e (
    (λ t. inr ((exists_iff p P h xs).0 t)),
    λ a. elim a [ inl q ↦ absurd (ground (arith, (h x).1 q)) | inr q ↦ (exists_iff p P h xs).1 q ],
  )
]

count_iff :
    {A : Type 0} (p : A → Bool) (P : A → Type 0)
    → ((x : A) → (p x ≡ true) ↔ P x)
    → (xs : List A) → (ltb 0 (count p xs) ≡ true) ↔ Any P xs
count_iff p P h [] = (λ e. cc, λ a. elim a [ ])
count_iff p P h (x ∷ xs) = elim (Bool-cases (p x)) [
  | inl e ↦ rw e ((λ _. inl ((h x).0 e)), (λ _. ground arith))
  | inr e ↦ rw e (
    (λ t. inr ((count_iff p P h xs).0 t)),
    λ a. elim a [ inl q ↦ absurd (ground (arith, (h x).1 q)) | inr q ↦ (count_iff p P h xs).1 q ],
  )
]

pub and_iff :
    (a b : Bool) {P Q : Type 0} → (a ≡ true) ↔ P → (b ≡ true) ↔ Q → (a && b ≡ true) ↔ (P × Q)
and_iff true b h k = ((λ e. (h.0 refl, k.0 e)), (λ q. k.1 q.1))
and_iff false b h k = ((λ e. cc), (λ q. h.1 q.0))

pub membership_iff :
    (g : Registry) (repo : ℕ) (caller : String) (m : Member)
    → (membership g repo caller m ≡ true) ↔ IsMember g repo caller m
membership_iff g repo caller m = and_iff (m.repo_id == repo) _ (nat_beq_iff m.repo_id repo) (
    exists_iff (λ u. u.id == m.user_id && u.name == caller) _
      (λ u. and_iff (u.id == m.user_id) _ (nat_beq_iff u.id m.user_id) (eq_iff u.name caller))
      g.users)

-- The tests of the two functions, as the relations' constructors.
if_true_iff :
    (a b : Bool) {P Q : Type 0}
    → (a ≡ true) ↔ P
    → (b ≡ true) ↔ Q
    → ((if a then true else b) ≡ true) ↔ (P ⊎ Q)
if_true_iff true b h k = ((λ _. inl (h.0 refl)), (λ _. refl))
if_true_iff false b h k =
    ((λ e. inr (k.0 e)), λ q. elim q [ inl x ↦ absurd (ground (arith, h.1 x)) | inr y ↦ k.1 y ])

module _ (g : Registry) (r : Repo) (owner : User) (caller : String)
    (row : select_first (repo_is r.id) g.repos ≡ some r) (owned : owner_row g r ≡ some owner) where
  pub repo_row_lem : repo_row g r.id ≡ some (r.visibility, owner.name)
  unfolding repo_row
  repo_row_lem = rw (repo_row, row) (rw owned refl)

  read : Bool
  read =
      if r.visibility == "public"
      then true
      else if owner.name == caller
      then true
      else ltb 0 (count (membership g r.id caller) g.members)

  reads : (read ≡ true) ↔ (
      (r.visibility ≡ "public") ⊎ ((owner.name ≡ caller) ⊎ Any (IsMember g r.id caller) g.members))
  unfolding read
  reads = if_true_iff _ _ (eq_iff r.visibility "public") (
      if_true_iff _ _ (eq_iff owner.name caller)
        (count_iff _ _ (membership_iff g r.id caller) g.members))

  write : Bool
  write =
      if owner.name == caller
      then true
      else ltb 0 (count (λ m. membership g r.id caller m && m.role == "write") g.members)

  writes :
      (write ≡ true)
      ↔ ((owner.name ≡ caller) ⊎ Any (λ m. IsMember g r.id caller m × (m.role ≡ "write")) g.members)
  unfolding write
  writes = if_true_iff _ _ (eq_iff owner.name caller) (
      count_iff _ _
        (λ m.
          and_iff (membership g r.id caller m) _ (membership_iff g r.id caller m)
            (eq_iff m.role "write"))
        g.members)

  -- The two checks answer, and by the relations.
  pub can_access_iff :
      (b : Bool) × (can_access_repo g r.id caller ≡ ok b) × ((b ≡ true) ↔ MayRead g r owner caller)
  unfolding can_access_repo read
  can_access_iff = (
    read,
    rw (can_access_repo, repo_row_lem) refl,
    (
      (λ e. elim (reads.0 e) [
        | inl v ↦ anyone v
        | inr more ↦ elim more [ inl o ↦ owner_reads o | inr m ↦ member_reads m ]
      ]),
      λ w. reads.1 (elim w [
        | anyone v ↦ inl v
        | owner_reads o ↦ inr (inl o)
        | member_reads m ↦ inr (inr m)
      ]),
    ),
  )

  pub can_write_iff :
      (b : Bool) × (can_write_repo g r.id caller ≡ ok b) × ((b ≡ true) ↔ MayWrite g r owner caller)
  unfolding can_write_repo write
  can_write_iff = (
    write,
    rw (can_write_repo, repo_row_lem) refl,
    (
      (λ e. elim (writes.0 e) [ inl o ↦ owner_writes o | inr m ↦ member_writes m ]),
      λ w. writes.1 (elim w [ owner_writes o ↦ inl o | member_writes m ↦ inr m ]),
    ),
  )
