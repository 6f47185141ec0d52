-- ===== src/Pulls/Merge/Landing.antt =====
-- When handleMergePull lands a pull request, and what it changes.
use codefort.Base.{
  ℕ, String, Bool, true, none, some, List, ◌∷◌, ◌≡◌, ◌≢◌, nat_eq, string_eq, update,
}
use codefort.Storage.{ok}
use codefort.Pulls.{open_state, merged, is_open, Pull, Pulls, pull_at, get_pull}
use codefort.Pulls.Git.{Refs, Git, Race, Merge, done, MergeMethod, do_merge}
use codefort.Pulls.Merge.{
  Forge, Reply, refused, landed, review_gate_blocks, close_linked_issues, merge_method_of,
}

-- The row of a merged pull request, with the tips of both branches before the merge.
abbrev pub frozen : ℕ → String → String → Pull → Pull
frozen now base head p = record {
  id = p.id;
  repo_id = p.repo_id;
  number = p.number;
  base_ref = p.base_ref;
  head_ref = p.head_ref;
  title = p.title;
  body = p.body;
  author = p.author;
  state = merged;
  created_at = p.created_at;
  updated_at = now;
  merged_at = some now;
  merge_base_sha = some base;
  merge_head_sha = some head;
}

module _ (git : Git) (race : Race) (now : ℕ) (identity decimal : String) (f : Forge)
    (repo number : ℕ) where
  -- The tables after the bookkeeping of a merge.
  abbrev pub recorded : Pull → String → String → Refs → List (String × String) → Forge
  recorded p base head refs builds = record f {
    pulls = record f.pulls {
      rows = update (pull_at repo number) (frozen now base head) f.pulls.rows;
    };
    refs = refs;
    mirrored = p.base_ref ∷ f.mirrored;
    tracker = close_linked_issues f.tracker now repo p;
    builds = builds;
    emitted =
        record {
          event_type = "pull.merged";
          repo_id = repo;
          actor = identity;
          pull = frozen now base head p;
        }
        ∷ f.emitted;
  }

  -- The pull request is open, its gate is clear and both branches stand at the two tips.
  pub record IsReady (p : Pull) (base_tip head_tip : String) : Type 0 where
    pub got : get_pull f.pulls repo number ≡ ok p
    pub is_open : p.state ≡ open_state
    pub clear : review_gate_blocks f repo number ≡ none
    pub base_at : f.refs p.base_ref ≡ some base_tip
    pub head_at : f.refs p.head_ref ≡ some head_tip

  -- What a call comes to.
  pub data Handled (method : String) (res : Forge × Reply) : Type 0 where
    -- nothing was changed
    turned_away :
        (status : ℕ) (message : String) → res ≡ (f, refused status message) → Handled method res
    -- doMerge did not finish: only the branches can have moved
    unmerged :
        (p : Pull) (base_tip head_tip : String) (m : MergeMethod) (refs : Refs) (reply : Reply)
        → IsReady p base_tip head_tip
        → merge_method_of method ≡ some m
        → ((tip : String) (ff : Bool)
            → do_merge git race f.refs p m decimal base_tip head_tip identity ≢ (refs, done tip ff))
        → (do_merge git race f.refs p m decimal base_tip head_tip identity).0 ≡ refs
        → res ≡ (record f { refs = refs }, reply)
        → Handled method res
    -- the head was in the base already
    contained :
        (p : Pull) (base_tip head_tip : String)
        → IsReady p base_tip head_tip
        → git.is_ancestor head_tip base_tip ≡ true
        → res ≡ (
          recorded p head_tip head_tip f.refs f.builds,
          landed (frozen now head_tip head_tip p) base_tip true,
        )
        → Handled method res
    -- doMerge moved the base
    moved :
        (p : Pull) (base_tip head_tip : String) (m : MergeMethod) (refs : Refs) (tip : String)
        (ff : Bool)
        → IsReady p base_tip head_tip
        → merge_method_of method ≡ some m
        → do_merge git race f.refs p m decimal base_tip head_tip identity ≡ (refs, done tip ff)
        → res ≡ (
          recorded p base_tip head_tip refs ((p.base_ref, tip) ∷ f.builds),
          landed (frozen now base_tip head_tip p) tip ff,
        )
        → Handled method res
