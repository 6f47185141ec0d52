-- ===== src/Pulls/Git.antt =====
-- internal/server/merge.go: the merge methods on a bare repository. Git's commands are a parameter;
-- branches are a function from their names to commits, and the pushes of others come between the
-- steps as functions on them.
pub mod Swap
use Prim.Native.Char.{Char, code}
use Prim.Native.String
use Prim.Native.String.{◌++◌}
use codefort.Base.{
  ℕ, String, Bool, true, false, ◌&&◌, ◌||◌, Option, none, some, List, [], ◌∷◌, ◌==◌, nat_eq,
  string_eq, if◌then◌else◌,
}
use codefort.Pulls.{Pull}

abbrev pub Refs : Type 0
Refs = String → Option String

-- gitRun: the process ended with a code and its output, or did not run.
pub data GitRun : Type 0 where
  exited : ℕ → String → GitRun
  not_run : GitRun

pub record RebaseCommit : Type 0 where
  pub oid : String
  pub parent : String

-- `merge_tree` has the option --merge-base or not; `rev_list` gives the fields of each line of
-- git rev-list --reverse --no-merges; `commit_tree_as` writes a tree with the metadata of a commit.
pub record Git : Type 0 where
  pub is_ancestor : String → String → Bool
  pub merge_tree : Option String → String → String → GitRun
  pub commit_tree : String → String → String → List String → Option String
  pub commit_tree_as : String → String → String → Option String
  pub rev_list : String → String → Option (List (List String))

-- What others do meanwhile: pushes before the update of the ref and before its verification, and
-- whether git refuses the update for a reason of its own.
pub record Race : Type 0 where
  pub before : Refs → Refs
  pub refused : Bool
  pub after : Refs → Refs

pub data MergeError : Type 0 where
  nothing_to_rebase not_fast_forward base_moved git_failed : MergeError

pub data Merge : Type 0 where
  done : String → Bool → Merge
  conflicted : List String → Merge
  failed : MergeError → Merge

-- strings.Split(out, "\x00"): the first field and the others
split_nul : String → String × List String
split_nul String.[] = (String.[], [])
split_nul (String.◌∷◌ c s) =
    let (field, rest) = split_nul s in
    if code c == 0 then (String.[], field ∷ rest) else (String.◌∷◌ c field, rest)

until_empty : List String → List String
until_empty [] = []
until_empty (f ∷ fs) = if f == "" then [] else f ∷ until_empty fs

is_terminator : Char → Bool
is_terminator c = code c == 0 || code c == b'\n'

trim_left : String → String
unfolding is_terminator
trim_left String.[] = String.[]
trim_left (String.◌∷◌ c s) = if is_terminator c then trim_left s else String.◌∷◌ c s

trim_right : String → String
unfolding is_terminator
trim_right String.[] = String.[]
trim_right (String.◌∷◌ c s) =
    let rest = trim_right s in
    if rest == "" && is_terminator c then String.[] else String.◌∷◌ c rest

pub data Tree : Type 0 where
  tree : String → Tree
  conflicts : List String → Tree
  unreadable : Tree

named_conflicts : List String → List String
named_conflicts [] = "(unknown)" ∷ []
named_conflicts (p ∷ ps) = p ∷ ps

unfoldable pub parse_merge_tree : GitRun → Tree
unfolding split_nul until_empty trim_left trim_right named_conflicts
parse_merge_tree not_run = unreadable
parse_merge_tree (exited code out) =
    if code == 0
    then tree (trim_left (trim_right out))
    else if code == 1
    then conflicts (named_conflicts (until_empty (split_nul out).1))
    else unreadable

abbrev pub empty_tree_oid : String
empty_tree_oid = "4b825dc642cb6eb9a060e54bf8d69288fbee4904"

rebase_commits : List (List String) → List RebaseCommit
rebase_commits [] = []
rebase_commits ([] ∷ lines) = rebase_commits lines
rebase_commits ((oid ∷ []) ∷ lines) = record { oid = oid; parent = "" } ∷ rebase_commits lines
rebase_commits ((oid ∷ parent ∷ _) ∷ lines) =
    record { oid = oid; parent = parent } ∷ rebase_commits lines

-- The ref of a branch points at a commit.
abbrev pub points_at : Refs → String → String → Bool
points_at refs branch oid = elim (refs branch) [ none ↦ false | some o ↦ o == oid ]

abbrev pub set_ref : Refs → String → String → Refs
set_ref refs branch oid name = if name == branch then some oid else refs name

-- git update-ref refs/heads/<branch> new old
unfoldable pub update_ref : Bool → Refs → String → String → String → Option Refs
update_ref refused refs branch new old =
    if refused
    then none
    else if points_at refs branch old
    then some (set_ref refs branch new)
    else none

pub data MergeMethod : Type 0 where
  merge_method ff_only_method rebase_method : MergeMethod

module _ (git : Git) where
  unfoldable pub cherry_pick_tree : String → RebaseCommit → Tree
  unfolding parse_merge_tree
  cherry_pick_tree onto c =
      parse_merge_tree
        (git.merge_tree (some (if c.parent == "" then empty_tree_oid else c.parent)) onto c.oid)

  -- The loop of rebaseOnto: the commit that the last one was replayed to.
  unfoldable pub replay : List RebaseCommit → String → Merge
  replay [] onto = done onto true
  replay (c ∷ cs) onto = elim (cherry_pick_tree onto c) [
    | unreadable ↦ failed git_failed
    | conflicts ps ↦ conflicted ps
    | tree t ↦ elim (git.commit_tree_as t c.oid onto) [
      | none ↦ failed git_failed
      | some picked ↦ replay cs picked
    ]
  ]

  -- Move the base ref to a commit that is ready, from the tip that was read before.
  abbrev pub advance : Race → Refs → String → String → Merge → Refs × Merge
  advance race refs base base_tip (conflicted ps) = (refs, conflicted ps)
  advance race refs base base_tip (failed e) = (refs, failed e)
  advance race refs base base_tip (done new ff) =
      elim (update_ref race.refused (race.before refs) base new base_tip) [
        | none ↦ (race.before refs, failed base_moved)
        | some moved ↦ (moved, done new ff)
      ]

  unfoldable pub rebase_onto : Race → Refs → String → String → String → Refs × Merge
  unfolding rebase_commits
  rebase_onto race refs base base_tip head_tip = elim (git.rev_list base_tip head_tip) [
    | none ↦ (refs, failed git_failed)
    | some lines ↦ advance race refs base base_tip (elim (rebase_commits lines) [
      | [] ↦ failed nothing_to_rebase
      | c ∷ cs ↦ replay (c ∷ cs) base_tip
    ])
  ]

  -- The ref is read again after the update; a push in between counts as a base that moved.
  unfoldable pub fast_forward : Race → Refs → String → String → String → Refs × Merge
  fast_forward race refs base base_tip head_tip =
      if git.is_ancestor base_tip head_tip
      then elim (update_ref race.refused (race.before refs) base head_tip base_tip) [
        | none ↦ (race.before refs, failed base_moved)
        | some moved ↦
            let later = race.after moved in
            if points_at later base head_tip
            then (later, done head_tip true)
            else (later, failed base_moved)
      ]
      else (refs, failed not_fast_forward)

  -- Text of the merge commit; the decimal form of the number is given.
  abbrev pub merge_message : String → Pull → String
  merge_message number p =
      "Merge pull request #"
      ++ (number ++ (" from " ++ (p.head_ref ++ (" into " ++ (p.base_ref ++ ("\n\n" ++ p.title))))))

  unfoldable pub merge_commit :
      Race → Refs → Pull → String → String → String → String → Refs × Merge
  merge_commit race refs p number base_tip head_tip identity =
      advance race refs p.base_ref base_tip
        (elim (parse_merge_tree (git.merge_tree none base_tip head_tip)) [
          | unreadable ↦ failed git_failed
          | conflicts ps ↦ conflicted ps
          | tree t ↦
              elim (git.commit_tree t (merge_message number p) identity
                (base_tip ∷ head_tip ∷ [])) [
                  | none ↦ failed git_failed
                  | some commit ↦ done commit false
                ]
        ])

  unfoldable pub do_merge :
      Race → Refs → Pull → MergeMethod → String → String → String → String → Refs × Merge
  do_merge race refs p ff_only_method number base_tip head_tip identity =
      fast_forward race refs p.base_ref base_tip head_tip
  do_merge race refs p rebase_method number base_tip head_tip identity =
      if git.is_ancestor base_tip head_tip
      then fast_forward race refs p.base_ref base_tip head_tip
      else rebase_onto race refs p.base_ref base_tip head_tip
  do_merge race refs p merge_method number base_tip head_tip identity =
      merge_commit race refs p number base_tip head_tip identity
