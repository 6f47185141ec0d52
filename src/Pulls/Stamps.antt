-- ===== src/Pulls/Stamps.antt =====
-- The columns that go with the state: merged_at and the frozen tips, under every call.
use codefort.Base.{
  ℕ, String, Option, none, some, List, [], ◌∷◌, ◌≡◌, refl, inl, inr, ◌==◌, nat_eq, string_eq,
  Bool-cases, Option-cases, All, All-append, All-update, select_first,
}
use codefort.Storage.{Result, ok, err, after, no_update_fields}
use codefort.Pulls.{
  PullState, open_state, merged, closed, Pull, Pulls, pull_at, CreatePullRequest, create_pull,
  patch_pull, set_state, no_pull_fields, update_pull, merged_row, mark_merged, valid_state,
  update_checked, update_reply, update_titled, update_state, handle_update_pull, open_prs_for_base,
}
use codefort.Pulls.Git.{Git, Refs}
use codefort.Pulls.Merge.{auto_close_one, auto_close_each, auto_close_merged_prs}

abbrev Stamped : PullState → Option ℕ → Option String → Option String → Type 0
Stamped merged at base head = (s : ℕ) × (at ≡ some s)
Stamped _ at base head = (at ≡ none) × (base ≡ none) × (head ≡ none)

-- merged_at is set exactly when the state is merged, and the frozen tips are set only then.
abbrev pub IsStamped : Pull → Type 0
IsStamped p = Stamped p.state p.merged_at p.merge_base_sha p.merge_head_sha

-- The calls on pull requests: CreatePull, UpdatePull as its handler calls it, MarkMerged and the
-- automatic closing after a push.
pub data Call : Type 0 where
  creates : ℕ → ℕ → CreatePullRequest → Call
  edits : ℕ → ℕ → ℕ → Option String → Option String → Option String → Call
  updates : ℕ → ℕ → ℕ → Option String → Option String → Option PullState → Call
  marks : ℕ → ℕ → ℕ → String → String → Call
  closes : Refs → ℕ → ℕ → String → String → String → Call

module _ (git : Git) (trim_space : String → String) where
  pub perform : Call → Pulls → Pulls
  perform (creates now repo req) t = (create_pull t now repo req).1
  perform (edits now repo number title body state) t =
      (handle_update_pull trim_space t now repo number title body state).0
  perform (updates now repo number title body state) t =
      after t (update_pull t now repo number title body state)
  perform (marks now repo number base head) t = after t (mark_merged t now repo number base head)
  perform (closes refs now repo base old_base new_base) t =
      auto_close_merged_prs git refs t now repo base old_base new_base

  pub perform_all : List Call → Pulls → Pulls
  perform_all [] t = t
  perform_all (c ∷ cs) t = perform_all cs (perform c t)

set_state-IsStamped :
    (now : ℕ) (state : Option PullState) (p : Pull)
    → IsStamped p
    → IsStamped (set_state now state p)
unfolding set_state
set_state-IsStamped now none p h = h
set_state-IsStamped now (some merged) p h = (now, refl)
set_state-IsStamped now (some open_state) p h = (refl, refl, refl)
set_state-IsStamped now (some closed) p h = (refl, refl, refl)

update_pull-IsStamped :
    (t : Pulls) (now repo number : ℕ) (title body : Option String) (state : Option PullState)
    → All IsStamped t.rows
    → All IsStamped (after t (update_pull t now repo number title body state)).rows
unfolding update_pull patch_pull
update_pull-IsStamped t now repo number title body state h =
    elim (Bool-cases (no_pull_fields title body state)) [
      | inl e ↦ rw (update_pull, e) h
      | inr e ↦ elim (Option-cases (select_first (pull_at repo number) t.rows)) [
        | inl f ↦ rw (update_pull, e, f) h
        | inr (p, f) ↦
            rw (update_pull, e, f)
              (All-update IsStamped (pull_at repo number) (patch_pull now title body state) t.rows
                (λ x _ s. set_state-IsStamped now state _ s) h)
      ]
    ]

mark_merged-IsStamped :
    (t : Pulls) (now repo number : ℕ) (base head : String)
    → All IsStamped t.rows
    → All IsStamped (after t (mark_merged t now repo number base head)).rows
unfolding mark_merged
mark_merged-IsStamped t now repo number base head h =
    elim (Option-cases (select_first (pull_at repo number) t.rows)) [
      | inl f ↦ rw (mark_merged, f) h
      | inr (p, f) ↦
          rw (mark_merged, f)
            (All-update IsStamped (pull_at repo number) (merged_row now base head) t.rows
              (λ x _ s. (now, refl)) h)
    ]

update_reply-after : (t : Pulls) (r : Result (Pull × Pulls)) → (update_reply t r).0 ≡ after t r
unfolding update_reply
update_reply-after t (ok (p, t')) = refl
update_reply-after t (err no_update_fields) = refl
update_reply-after t (err _) = refl

update_checked-IsStamped :
    (t : Pulls) (now repo number : ℕ) (title body : Option String) (state : Option PullState)
    → All IsStamped t.rows
    → All IsStamped (update_checked t now repo number title body state).0.rows
unfolding update_checked
update_checked-IsStamped t now repo number title body state h =
    rw (update_reply-after t (update_pull t now repo number title body state))
      (update_pull-IsStamped t now repo number title body state h)

module _ (trim_space : String → String) where
  update_titled-IsStamped :
      (t : Pulls) (now repo number : ℕ) (title body : Option String) (state : Option PullState)
      → All IsStamped t.rows
      → All IsStamped (update_titled trim_space t now repo number title body state).0.rows
  unfolding update_titled
  update_titled-IsStamped t now repo number none body state h =
      update_checked-IsStamped t now repo number none body state h
  update_titled-IsStamped t now repo number (some title) body state h =
      elim (Bool-cases (trim_space title == "")) [
        | inl e ↦ rw e h
        | inr e ↦
            rw e (update_checked-IsStamped t now repo number (some (trim_space title)) body state h)
      ]

  checked_state-IsStamped :
      (t : Pulls) (now repo number : ℕ) (title body : Option String) (state : String)
      → All IsStamped t.rows
      → All IsStamped
          (handle_update_pull trim_space t now repo number title body (some state)).0.rows
  unfolding handle_update_pull
  checked_state-IsStamped t now repo number title body state h =
      elim (Option-cases (valid_state state)) [
        | inl e ↦ rw (handle_update_pull, e) h
        | inr (s, e) ↦ rw (handle_update_pull, e) (decided s)
      ]
    where
      decided :
          (s : PullState)
          → All IsStamped (update_state trim_space t now repo number title body s).0.rows
      decided merged = h
      decided open_state = update_titled-IsStamped t now repo number title body (some open_state) h
      decided closed = update_titled-IsStamped t now repo number title body (some closed) h

  handle_update_pull-IsStamped :
      (t : Pulls) (now repo number : ℕ) (title body state : Option String)
      → All IsStamped t.rows
      → All IsStamped (handle_update_pull trim_space t now repo number title body state).0.rows
  unfolding handle_update_pull
  handle_update_pull-IsStamped t now repo number title body none h =
      update_titled-IsStamped t now repo number title body none h
  handle_update_pull-IsStamped t now repo number title body (some state) h =
      checked_state-IsStamped t now repo number title body state h

module _ (git : Git) (refs : Refs) (now repo : ℕ) (old_base new_base : String) where
  auto_close_one-IsStamped :
      (p : Pull) (t : Pulls)
      → All IsStamped t.rows
      → All IsStamped (auto_close_one git refs now repo old_base new_base p t).rows
  unfolding auto_close_one
  auto_close_one-IsStamped p t h = elim (Option-cases (refs p.head_ref)) [
    | inl e ↦ rw (auto_close_one, e) h
    | inr (head, e) ↦ elim (Bool-cases (git.is_ancestor head new_base)) [
      | inr f ↦ rw (auto_close_one, e, f) h
      | inl f ↦
          rw (auto_close_one, e, f) (mark_merged-IsStamped t now repo p.number old_base head h)
    ]
  ]

  auto_close_each-IsStamped :
      (ps : List Pull) (t : Pulls)
      → All IsStamped t.rows
      → All IsStamped (auto_close_each git refs now repo old_base new_base ps t).rows
  unfolding auto_close_each
  auto_close_each-IsStamped [] t h = h
  auto_close_each-IsStamped (p ∷ ps) t h =
      auto_close_each-IsStamped ps (auto_close_one git refs now repo old_base new_base p t)
        (auto_close_one-IsStamped p t h)

module _ (git : Git) (trim_space : String → String) where
  perform-IsStamped :
      (c : Call) (t : Pulls)
      → All IsStamped t.rows
      → All IsStamped (perform git trim_space c t).rows
  unfolding perform create_pull auto_close_merged_prs
  perform-IsStamped (creates now repo req) t h =
      All-append IsStamped t.rows ((create_pull t now repo req).0 ∷ []) h ((refl, refl, refl), tt)
  perform-IsStamped (edits now repo number title body state) t h =
      handle_update_pull-IsStamped trim_space t now repo number title body state h
  perform-IsStamped (updates now repo number title body state) t h =
      update_pull-IsStamped t now repo number title body state h
  perform-IsStamped (marks now repo number base head) t h =
      mark_merged-IsStamped t now repo number base head h
  perform-IsStamped (closes refs now repo base old_base new_base) t h =
      auto_close_each-IsStamped git refs now repo old_base new_base (open_prs_for_base t repo base)
        t h

  -- Under every sequence of calls that create, update, merge and automatically close pull requests,
  -- merged_at stays set exactly for the merged ones, and the frozen tips are kept by no other.
  pub perform_all-IsStamped :
      (cs : List Call) (t : Pulls)
      → All IsStamped t.rows
      → All IsStamped (perform_all git trim_space cs t).rows
  unfolding perform_all
  perform_all-IsStamped [] t h = h
  perform_all-IsStamped (c ∷ cs) t h =
      perform_all-IsStamped cs (perform git trim_space c t) (perform-IsStamped c t h)
