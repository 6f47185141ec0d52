-- ===== src/Issues/Views/Ready.antt =====
-- The ready and blocked views against what they promise.
use codefort.Base.{
  ℕ, ◌≤◌, ◌≡◌, ◌≢◌, ◌↔◌, refl, inl, inr, Bool, true, false, not, ◌&&◌, none, some, List, [], ◌∷◌,
  arith, ◌==◌, nat_eq, nat_beq_iff, Bool-cases, Option-cases, All, exists, count,
}
use codefort.Issues.{
  IssueState, todo, in_progress, done, closed, Issue, Dependency, Tracker, at, is_finished,
}
use codefort.Issues.Views.{
  is_todo, unassigned, has_unmet_dep, is_child_of, is_epic, is_ready, is_blocked, child_progress,
}

exists_false_iff :
    {A : Type 0} (p : A → Bool) (xs : List A) → (exists p xs ≡ false) ↔ All (λ x. p x ≡ false) xs
exists_false_iff p [] = (λ h. tt, λ h. refl)
exists_false_iff p (x ∷ xs) =
    let (to, from) = exists_false_iff p xs in
    (λ h. (ground arith, to (ground arith)), λ h. ground (arith, h.0, from h.1))

All-iff :
    {A : Type 0} (P Q : A → Type 0) (xs : List A) → ((x : A) → P x ↔ Q x) → All P xs ↔ All Q xs
All-iff P Q [] h = (λ a. tt, λ a. tt)
All-iff P Q (x ∷ xs) h =
    let (to, from) = All-iff P Q xs h in (λ a. ((h x).0 a.0, to a.1), λ a. ((h x).1 a.0, from a.1))

-- Every depends-on target of the issue that is there is done or closed.
abbrev pub DepsAreMet : Tracker → Issue → Type 0
DepsAreMet t i =
    All
      (λ d.
        d.repo_id ≡ i.repo_id
        → d.issue_number ≡ i.number
        → All (λ j. j.repo_id ≡ d.repo_id → j.number ≡ d.depends_on → is_finished j.state ≡ true)
            t.issues)
      t.dependencies

-- No issue of the repository names it as its parent.
abbrev pub HasNoChild : Tracker → Issue → Type 0
HasNoChild t i = All (λ c. c.repo_id ≡ i.repo_id → c.parent_number ≢ some i.number) t.issues

count_and-full :
    {A : Type 0} (p q : A → Bool) (xs : List A)
    → (count (λ x. p x && q x) xs ≤ count p xs)
      × ((count (λ x. p x && q x) xs ≡ count p xs) ↔ All (λ x. p x ≡ true → q x ≡ true) xs)
count_and-full p q [] = (omega arith, (λ h. tt, λ h. refl))
count_and-full p q (x ∷ xs) =
    let (le, (to, from)) = count_and-full p q xs in
    elim (Bool-cases (p x)) [
      | inr e ↦ rw e (le, (λ h. (ground arith, to h), λ h. from h.1))
      | inl e ↦ elim (Bool-cases (q x)) [
        | inl f ↦
            rw (e, f)
              (
                omega (arith, le),
                (λ h. (λ k. refl, to (omega (arith, h))), λ h. omega (arith, from h.1)),
              )
        | inr f ↦
            rw (e, f) (omega (arith, le), (λ h. ground (arith, le, h), λ h. ground (arith, h.0)))
      ]
    ]

child_iff :
    (i c : Issue)
    → (is_child_of i.repo_id i.number c ≡ false)
      ↔ (c.repo_id ≡ i.repo_id → c.parent_number ≢ some i.number)
child_iff i c = elim (Option-cases c.parent_number) [
  | inl e ↦ rw e (λ h r k. ground (arith, k), λ h. ground arith)
  | inr (p, e) ↦ rw e (
    λ h r k. ground (arith, h, r, k, nat_beq_iff c.repo_id i.repo_id, nat_beq_iff p i.number),
    λ h. ground (arith, h, nat_beq_iff c.repo_id i.repo_id, nat_beq_iff p i.number),
  )
]

pub is_epic_iff : (t : Tracker) (i : Issue) → (is_epic t i ≡ false) ↔ HasNoChild t i
unfolding is_epic
is_epic_iff t i =
    let (to, from) = exists_false_iff (is_child_of i.repo_id i.number) t.issues in
    let (to', from') =
      All-iff (λ c. is_child_of i.repo_id i.number c ≡ false)
        (λ c. c.repo_id ≡ i.repo_id → c.parent_number ≢ some i.number) t.issues (child_iff i) in
    (λ h. to' (to h), λ h. from (from' h))

target_iff :
    (i : Issue) (d : Dependency) (j : Issue)
    → ((at d.repo_id d.depends_on j && not (is_finished j.state)) ≡ false)
      ↔ (j.repo_id ≡ d.repo_id → j.number ≡ d.depends_on → is_finished j.state ≡ true)
target_iff i d j = (
  λ h r n.
      ground (arith, h, r, n, nat_beq_iff j.repo_id d.repo_id, nat_beq_iff j.number d.depends_on),
  λ h. elim (Bool-cases (is_finished j.state)) [
    | inl e ↦ rw e ground arith
    | inr e ↦
        ground (arith, h, e, nat_beq_iff j.repo_id d.repo_id, nat_beq_iff j.number d.depends_on)
  ],
)

dep_iff :
    (t : Tracker) (i : Issue) (d : Dependency)
    → ((d.repo_id == i.repo_id
          && d.issue_number == i.number
          && exists (λ j. at d.repo_id d.depends_on j && not (is_finished j.state)) t.issues)
        ≡ false)
      ↔ (d.repo_id ≡ i.repo_id
          → d.issue_number ≡ i.number
          → All
              (λ j. j.repo_id ≡ d.repo_id → j.number ≡ d.depends_on → is_finished j.state ≡ true)
              t.issues)
dep_iff t i d =
    let (to, from) =
      exists_false_iff (λ j. at d.repo_id d.depends_on j && not (is_finished j.state)) t.issues in
    let (to', from') =
      All-iff (λ j. (at d.repo_id d.depends_on j && not (is_finished j.state)) ≡ false)
        (λ j. j.repo_id ≡ d.repo_id → j.number ≡ d.depends_on → is_finished j.state ≡ true) t.issues
        (target_iff i d) in
    (
      λ h r n. to' (
          to (
            ground (
              arith,
              h,
              r,
              n,
              nat_beq_iff d.repo_id i.repo_id,
              nat_beq_iff d.issue_number i.number,
            ))),
      λ h. elim (Bool-cases (d.repo_id == i.repo_id)) [
        | inr e ↦ rw e refl
        | inl e ↦ elim (Bool-cases (d.issue_number == i.number)) [
          | inr f ↦ rw (e, f) refl
          | inl f ↦
              rw (e, f)
                (from (
                  from' (
                    h ((nat_beq_iff d.repo_id i.repo_id).0 e)
                      ((nat_beq_iff d.issue_number i.number).0 f))))
        ]
      ],
    )

pub has_unmet_dep_iff : (t : Tracker) (i : Issue) → (has_unmet_dep t i ≡ false) ↔ DepsAreMet t i
unfolding has_unmet_dep
has_unmet_dep_iff t i =
    let (to, from) =
      exists_false_iff
        (λ d.
          d.repo_id == i.repo_id
          && d.issue_number == i.number
          && exists (λ j. at d.repo_id d.depends_on j && not (is_finished j.state)) t.issues)
        t.dependencies in
    let (to', from') =
      All-iff
        (λ d.
          (d.repo_id == i.repo_id
            && d.issue_number == i.number
            && exists (λ j. at d.repo_id d.depends_on j && not (is_finished j.state)) t.issues)
          ≡ false)
        _ t.dependencies (dep_iff t i) in
    (λ h. to' (to h), λ h. from (from' h))

todo_iff : (s : IssueState) → (is_todo s ≡ true) ↔ (s ≡ todo)
todo_iff todo = (λ h. refl, λ h. refl)
todo_iff in_progress = ground arith
todo_iff done = ground arith
todo_iff closed = ground arith

unassigned_iff : (i : Issue) → (unassigned i ≡ true) ↔ (i.assignee ≡ none)
unassigned_iff i = elim (Option-cases i.assignee) [
  | inl e ↦ rw e (λ h. refl, λ h. refl)
  | inr (a, e) ↦ rw e (ground arith)
]

-- An issue is ready exactly when it is todo, unassigned, has no child issue, and every issue it
-- depends on that exists is done or closed.
pub is_ready_iff :
    (t : Tracker) (i : Issue)
    → (is_ready t i ≡ true)
      ↔ ((i.state ≡ todo) × (i.assignee ≡ none) × HasNoChild t i × DepsAreMet t i)
unfolding is_ready
is_ready_iff t i =
    let td = todo_iff i.state in
    let ua = unassigned_iff i in
    let ep = is_epic_iff t i in
    let dm = has_unmet_dep_iff t i in
    (
      λ h. (td.0 (ground arith), ua.0 (ground arith), ep.0 (ground arith), dm.0 (ground arith)),
      λ (s, a, c, d). ground (arith, td.1 s, ua.1 a, ep.1 c, dm.1 d),
    )

-- A todo issue that nobody holds and that no issue has as its parent is blocked exactly when it is
-- not ready.
pub ready_xor_blocked :
    (t : Tracker) (i : Issue)
    → i.state ≡ todo
    → i.assignee ≡ none
    → HasNoChild t i
    → is_blocked t i ≡ not (is_ready t i)
unfolding is_ready is_blocked
ready_xor_blocked t i s a c =
    ground (arith, (todo_iff i.state).1 s, (unassigned_iff i).1 a, (is_epic_iff t i).1 c)

-- Of the children of a number, no more are done than there are, and as many exactly when every
-- child is done or closed.
pub child_progress_complete :
    (t : Tracker) (repo number : ℕ)
    → ((child_progress t repo number).done ≤ (child_progress t repo number).total)
      × (((child_progress t repo number).done ≡ (child_progress t repo number).total)
          ↔ All (λ c. is_child_of repo number c ≡ true → is_finished c.state ≡ true) t.issues)
unfolding child_progress
child_progress_complete t repo number =
    count_and-full (is_child_of repo number) (λ c. is_finished c.state) t.issues
