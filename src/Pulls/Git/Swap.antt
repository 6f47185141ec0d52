-- ===== src/Pulls/Git/Swap.antt =====
-- What doMerge does to the branches: one compare-and-swap of the base, which loses no history.
use codefort.Base.{
  String, Bool, true, false, none, some, List, [], ◌∷◌, ◌≡◌, ◌≢◌, refl, ◌⊎◌, inl, inr, string_eq,
  eq_iff, Bool-cases, Option-cases, arith,
}
use codefort.Pulls.{Pull}
use codefort.Pulls.Git.{
  Refs, RebaseCommit, Git, Race, MergeError, base_moved, not_fast_forward, nothing_to_rebase,
  git_failed, Merge, done, conflicted, failed, Tree, tree, conflicts, unreadable, parse_merge_tree,
  rebase_commits, points_at, set_ref, update_ref, cherry_pick_tree, replay, advance, rebase_onto,
  fast_forward, merge_commit, merge_message, MergeMethod, merge_method, ff_only_method,
  rebase_method, do_merge,
}

-- The ways in which an attempt leaves the branches.
pub data Attempt (race : Race) (refs : Refs) (base base_tip : String) (res : Refs × Merge)
    : Type 0 where
  -- nothing was written
  gave_up : (ps : List String) → res ≡ (refs, conflicted ps) → Attempt race refs base base_tip res
  stopped : (e : MergeError) → res ≡ (refs, failed e) → Attempt race refs base base_tip res
  -- the swap failed
  lost : res ≡ (race.before refs, failed base_moved) → Attempt race refs base base_tip res
  -- the swap found the tip that was read, and only the base moved
  swapped :
      (new : String) (ff : Bool)
      → race.before refs base ≡ some base_tip
      → res ≡ (set_ref (race.before refs) base new, done new ff)
      → Attempt race refs base base_tip res
  -- the same, with pushes of others before the base was read again and found at its new tip
  verified :
      (new : String)
      → race.before refs base ≡ some base_tip
      → race.after (set_ref (race.before refs) base new) base ≡ some new
      → res ≡ (race.after (set_ref (race.before refs) base new), done new true)
      → Attempt race refs base base_tip res
  -- the base had moved on when it was read again
  overtaken :
      (new : String)
      → race.before refs base ≡ some base_tip
      → race.after (set_ref (race.before refs) base new) base ≢ some new
      → res ≡ (race.after (set_ref (race.before refs) base new), failed base_moved)
      → Attempt race refs base base_tip res

points_at_iff : (refs : Refs) (b oid : String) → points_at refs b oid ≡ true → refs b ≡ some oid
points_at_iff refs b oid h = elim (Option-cases (refs b)) [
  | inl e ↦ ground (arith, e)
  | inr (o, e) ↦ ground (arith, e, eq_iff o oid)
]

points_elsewhere : (refs : Refs) (b oid : String) → points_at refs b oid ≡ false → refs b ≢ some oid
points_elsewhere refs b oid h e = ground (arith, e, (eq_iff oid oid).1 refl)

update_ref_cases :
    (refused : Bool) (refs : Refs) (b new old : String)
    → (update_ref refused refs b new old ≡ none)
      ⊎ ((refs b ≡ some old) × (update_ref refused refs b new old ≡ some (set_ref refs b new)))
unfolding update_ref
update_ref_cases true refs b new old = inl refl
update_ref_cases false refs b new old = elim (Bool-cases (points_at refs b old)) [
  | inl e ↦ inr (points_at_iff refs b old e, rw e refl)
  | inr e ↦ inl (rw e refl)
]

advance-Attempt :
    (git : Git) (race : Race) (refs : Refs) (base base_tip : String) (m : Merge)
    → Attempt race refs base base_tip (advance git race refs base base_tip m)
advance-Attempt git race refs base base_tip (conflicted ps) = gave_up ps refl
advance-Attempt git race refs base base_tip (failed e) = stopped e refl
advance-Attempt git race refs base base_tip (done new ff) =
    elim (update_ref_cases race.refused (race.before refs) base new base_tip) [
      | inl e ↦ lost (ground (arith, e))
      | inr (at_tip, e) ↦ swapped new ff at_tip (ground (arith, e))
    ]

module _ (git : Git) (race : Race) (refs : Refs) where
  fast_forward-Attempt :
      (base base_tip head_tip : String)
      → Attempt race refs base base_tip (fast_forward git race refs base base_tip head_tip)
  unfolding fast_forward
  fast_forward-Attempt base base_tip head_tip =
      elim (Bool-cases (git.is_ancestor base_tip head_tip)) [
        | inr no_way ↦ stopped not_fast_forward (ground (arith, no_way))
        | inl below ↦
            elim (update_ref_cases race.refused (race.before refs) base head_tip base_tip) [
              | inl e ↦ lost (ground (arith, e))
              | inr (at_tip, e) ↦
                  let later = race.after (set_ref (race.before refs) base head_tip) in
                  elim (Bool-cases (points_at later base head_tip)) [
                    | inl there ↦
                        verified head_tip at_tip (points_at_iff later base head_tip there)
                          (ground (arith, e, there))
                    | inr gone ↦
                        overtaken head_tip at_tip (points_elsewhere later base head_tip gone)
                          (ground (arith, e, gone))
                  ]
            ]
      ]

  rebase_onto-Attempt :
      (base base_tip head_tip : String)
      → Attempt race refs base base_tip (rebase_onto git race refs base base_tip head_tip)
  unfolding rebase_onto
  rebase_onto-Attempt base base_tip head_tip =
      elim (Option-cases (git.rev_list base_tip head_tip)) [
        | inl e ↦ stopped git_failed (ground (arith, e))
        | inr (lines, e) ↦ rw (rebase_onto, e) (advance-Attempt git race refs base base_tip _)
      ]

  -- Whatever the method, doMerge writes the base ref only, and only when it still points at the tip
  -- that was read before: a conflict or any other failure before the swap writes nothing.
  pub do_merge-Attempt :
      (p : Pull) (method : MergeMethod) (number base_tip head_tip identity : String)
      → Attempt race refs p.base_ref base_tip
          (do_merge git race refs p method number base_tip head_tip identity)
  unfolding do_merge
  do_merge-Attempt p ff_only_method number base_tip head_tip identity =
      fast_forward-Attempt p.base_ref base_tip head_tip
  do_merge-Attempt p rebase_method number base_tip head_tip identity =
      elim (Bool-cases (git.is_ancestor base_tip head_tip)) [
        | inl e ↦ rw e (fast_forward-Attempt p.base_ref base_tip head_tip)
        | inr e ↦ rw e (rebase_onto-Attempt p.base_ref base_tip head_tip)
      ]
  do_merge-Attempt p merge_method number base_tip head_tip identity =
      unfold merge_commit in advance-Attempt git race refs p.base_ref base_tip _

-- What the git commands promise: ancestry is a preorder, and a commit is below its parents.
pub record GitLaws (git : Git) : Type 0 where
  pub ancestor_refl : (a : String) → git.is_ancestor a a ≡ true
  pub ancestor_trans :
      (a b c : String)
      → git.is_ancestor a b ≡ true
      → git.is_ancestor b c ≡ true
      → git.is_ancestor a c ≡ true
  pub commit_tree_parents :
      (t message identity a b c : String)
      → git.commit_tree t message identity (a ∷ b ∷ []) ≡ some c
      → (git.is_ancestor a c ≡ true) × (git.is_ancestor b c ≡ true)
  pub commit_tree_as_parent :
      (t oid onto c : String)
      → git.commit_tree_as t oid onto ≡ some c
      → git.is_ancestor onto c ≡ true

Tree-cases :
    (t : Tree)
    → ((oid : String) × (t ≡ tree oid))
      ⊎ (((ps : List String) × (t ≡ conflicts ps)) ⊎ (t ≡ unreadable))
Tree-cases (tree oid) = inl (oid, refl)
Tree-cases (conflicts ps) = inr (inl (ps, refl))
Tree-cases unreadable = inr (inr refl)

module _ (git : Git) (laws : GitLaws git) where
  replay-ancestor :
      (cs : List RebaseCommit) (onto new : String) (ff : Bool)
      → replay git cs onto ≡ done new ff
      → git.is_ancestor onto new ≡ true
  unfolding replay
  replay-ancestor [] onto new ff e = ground (arith, laws.ancestor_refl onto)
  replay-ancestor (c ∷ cs) onto new ff e = elim (Tree-cases (cherry_pick_tree git onto c)) [
    | inr (inl (ps, t)) ↦ absurd (ground (arith, t))
    | inr (inr t) ↦ absurd (ground (arith, t))
    | inl (oid, t) ↦ elim (Option-cases (git.commit_tree_as oid c.oid onto)) [
      | inl none_made ↦ absurd (ground (arith, t, none_made))
      | inr (picked, made) ↦
          laws.ancestor_trans onto picked new
            (laws.commit_tree_as_parent oid c.oid onto picked made)
            (replay-ancestor cs picked new ff (ground (arith, t, made)))
    ]
  ]

  advance_inv :
      (race : Race) (refs refs' : Refs) (base base_tip new : String) (ff : Bool) (m : Merge)
      → advance git race refs base base_tip m ≡ (refs', done new ff)
      → m ≡ done new ff
  advance_inv race refs refs' base base_tip new ff (conflicted ps) e = ground (arith)
  advance_inv race refs refs' base base_tip new ff (failed x) e = ground (arith)
  advance_inv race refs refs' base base_tip new ff (done n f) e = ground (arith)

  fast_forward_tips :
      (race : Race) (refs refs' : Refs) (base base_tip head_tip new : String) (ff : Bool)
      → fast_forward git race refs base base_tip head_tip ≡ (refs', done new ff)
      → (git.is_ancestor base_tip new ≡ true) × (git.is_ancestor head_tip new ≡ true)
  unfolding fast_forward
  fast_forward_tips race refs refs' base base_tip head_tip new ff e =
      let is : (git.is_ancestor base_tip head_tip ≡ true) × (new ≡ head_tip) = ground arith in
      (rw is.1 is.0, rw is.1 (laws.ancestor_refl head_tip))

  rebase_onto_tip :
      (race : Race) (refs refs' : Refs) (base base_tip head_tip new : String) (ff : Bool)
      → rebase_onto git race refs base base_tip head_tip ≡ (refs', done new ff)
      → git.is_ancestor base_tip new ≡ true
  unfolding rebase_onto
  rebase_onto_tip race refs refs' base base_tip head_tip new ff e =
      elim (Option-cases (git.rev_list base_tip head_tip)) [
        | inl n ↦ absurd (ground (arith, n))
        | inr (lines, l) ↦
            replayed (rebase_commits lines)
              (advance_inv race refs refs' base base_tip new ff _ (rw (rebase_onto, l) at e))
      ]
    where
      replayed :
          (cs : List RebaseCommit)
          → (elim cs [ [] ↦ failed nothing_to_rebase | d ∷ ds ↦ replay git (d ∷ ds) base_tip ])
            ≡ done new ff
          → git.is_ancestor base_tip new ≡ true
      replayed [] h = absurd (ground (arith, h))
      replayed (d ∷ ds) h = replay-ancestor (d ∷ ds) base_tip new ff h

  merge_commit_tips :
      (race : Race) (refs refs' : Refs) (p : Pull) (number base_tip head_tip identity new : String)
      (ff : Bool)
      → merge_commit git race refs p number base_tip head_tip identity ≡ (refs', done new ff)
      → (git.is_ancestor base_tip new ≡ true) × (git.is_ancestor head_tip new ≡ true)
  unfolding merge_commit
  merge_commit_tips race refs refs' p number base_tip head_tip identity new ff e =
      let m = advance_inv race refs refs' p.base_ref base_tip new ff _ e in
      elim (Tree-cases (parse_merge_tree (git.merge_tree none base_tip head_tip))) [
        | inr (inl (ps, t)) ↦ absurd (ground (arith, m, t))
        | inr (inr t) ↦ absurd (ground (arith, m, t))
        | inl (oid, t) ↦
            laws.commit_tree_parents oid (merge_message git number p) identity base_tip head_tip new
              (ground (arith, m, t))
      ]

  -- When git's ancestry is a preorder and a new commit is below its parents, a successful merge
  -- loses nothing of the base: the old tip is an ancestor of the new one. With the methods merge and
  -- ff-only the head's tip is an ancestor of the new one too.
  pub do_merge_keeps_history :
      (race : Race) (refs refs' : Refs) (p : Pull) (method : MergeMethod)
      (number base_tip head_tip identity new : String) (ff : Bool)
      → do_merge git race refs p method number base_tip head_tip identity ≡ (refs', done new ff)
      → (git.is_ancestor base_tip new ≡ true)
        × ((method ≡ rebase_method) ⊎ (git.is_ancestor head_tip new ≡ true))
  unfolding do_merge
  do_merge_keeps_history race refs refs' p ff_only_method number base_tip head_tip identity new ff
        e =
      let tips = fast_forward_tips race refs refs' p.base_ref base_tip head_tip new ff e in
      (tips.0, inr tips.1)
  do_merge_keeps_history race refs refs' p merge_method number base_tip head_tip identity new ff e =
      let tips = merge_commit_tips race refs refs' p number base_tip head_tip identity new ff e in
      (tips.0, inr tips.1)
  do_merge_keeps_history race refs refs' p rebase_method number base_tip head_tip identity new ff
        e =
      (
        elim (Bool-cases (git.is_ancestor base_tip head_tip)) [
          | inl below ↦
              (fast_forward_tips race refs refs' p.base_ref base_tip head_tip new ff
                (rw below at e)).0
          | inr aside ↦
              rebase_onto_tip race refs refs' p.base_ref base_tip head_tip new ff (rw aside at e)
        ],
        inl refl,
      )
