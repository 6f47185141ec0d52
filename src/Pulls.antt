-- ===== src/Pulls.antt =====
-- Pull requests and their reviews: internal/storage/pulls.go and pr_reviews.go, with the checks of
-- handleUpdatePull in internal/server/pulls.go. Text columns are strings; the frozen tips are empty
-- strings where the columns are NULL, as decodePull reads them.
pub mod Keywords
pub mod Git
pub mod Merge
pub mod Stamps
pub mod Examples
use codefort.Base.{
  ℕ, suc, ◌+◌, String, Bool, true, false, ◌&&◌, not, Option, none, some, List, [], ◌∷◌, ◌++◌, ◌==◌,
  nat_eq, string_eq, if◌then◌else◌, leb, select_first, select, update, exists, max_of,
}
use codefort.Storage.{Result, ok, err, ◌>>=◌, found, not_found, no_update_fields}

pub data PullState : Type 0 where
  open_state merged closed : PullState

pub record Pull : Type 0 where
  pub id : ℕ
  pub repo_id : ℕ
  pub number : ℕ
  pub base_ref : String
  pub head_ref : String
  pub title : String
  pub body : String
  pub author : String
  pub state : PullState
  pub created_at : ℕ
  pub updated_at : ℕ
  pub merged_at : Option ℕ
  pub merge_base_sha : Option String
  pub merge_head_sha : Option String

pub data Verdict : Type 0 where
  approved changes_requested : Verdict

pub record Review : Type 0 where
  pub id : ℕ
  pub repo_id : ℕ
  pub pr_number : ℕ
  pub author : String
  pub state : Verdict
  pub updated_at : ℕ

pub record Pulls : Type 0 where
  pub rows : List Pull
  pub next_id : ℕ
  pub reviews : List Review
  pub next_review : ℕ

-- WHERE repo_id = ? AND number = ?
abbrev pub pull_at : ℕ → ℕ → Pull → Bool
pull_at repo number p = p.repo_id == repo && p.number == number

abbrev pub is_open : PullState → Bool
is_open open_state = true
is_open _ = false

pub record CreatePullRequest : Type 0 where
  pub base : String
  pub head : String
  pub title : String
  pub body : String
  pub author : String

unfoldable pub create_pull : Pulls → ℕ → ℕ → CreatePullRequest → Pull × Pulls
create_pull t now repo req =
    let row : Pull = record {
      id = t.next_id;
      repo_id = repo;
      number = max_of (λ p. p.repo_id == repo) (λ p. p.number) t.rows + 1;
      base_ref = req.base;
      head_ref = req.head;
      title = req.title;
      body = req.body;
      author = req.author;
      state = open_state;
      created_at = now;
      updated_at = now;
      merged_at = none;
      merge_base_sha = none;
      merge_head_sha = none;
    } in
    (row, record t { rows = t.rows ++ row ∷ []; next_id = suc t.next_id })

unfoldable pub get_pull : Pulls → ℕ → ℕ → Result Pull
get_pull t repo number = found (select_first (pull_at repo number) t.rows) not_found

unfoldable pub open_prs_for_base : Pulls → ℕ → String → List Pull
open_prs_for_base t repo base =
    select (λ p. p.repo_id == repo && p.base_ref == base && is_open p.state) t.rows

abbrev or_old {ℓ} : {A : Type ℓ} → Option A → A → A
or_old none old = old
or_old (some new) old = new

-- SET state = ?, with the columns that follow it
set_state : ℕ → Option PullState → Pull → Pull
set_state now none p = p
set_state now (some merged) p = record p { state = merged; merged_at = some now }
set_state now (some s) p = record p {
  state = s;
  merged_at = none;
  merge_base_sha = none;
  merge_head_sha = none;
}

patch_pull : ℕ → Option String → Option String → Option PullState → Pull → Pull
unfolding set_state
patch_pull now title body state p =
    set_state now state
      (record p { updated_at = now; title = or_old title p.title; body = or_old body p.body })

abbrev no_pull_fields : Option String → Option String → Option PullState → Bool
no_pull_fields none none none = true
no_pull_fields _ _ _ = false

unfoldable pub update_pull :
    Pulls → ℕ → ℕ → ℕ → Option String → Option String → Option PullState → Result (Pull × Pulls)
unfolding patch_pull
update_pull t now repo number title body state =
    if no_pull_fields title body state then err no_update_fields else do
      p ← found (select_first (pull_at repo number) t.rows) not_found
      ok (
        patch_pull now title body state p,
        record t { rows = update (pull_at repo number) (patch_pull now title body state) t.rows },
      )

abbrev pub merged_row : ℕ → String → String → Pull → Pull
merged_row now base head p = record p {
  state = merged;
  updated_at = now;
  merged_at = some now;
  merge_base_sha = some base;
  merge_head_sha = some head;
}

unfoldable pub mark_merged : Pulls → ℕ → ℕ → ℕ → String → String → Result (Pull × Pulls)
mark_merged t now repo number base head = do
  p ← found (select_first (pull_at repo number) t.rows) not_found
  ok (
    merged_row now base head p,
    record t { rows = update (pull_at repo number) (merged_row now base head) t.rows },
  )

abbrev pub review_of : ℕ → ℕ → Review → Bool
review_of repo number r = r.repo_id == repo && r.pr_number == number

abbrev pub review_by : ℕ → ℕ → String → Review → Bool
review_by repo number author r = review_of repo number r && r.author == author

-- INSERT … ON CONFLICT (repo_id, pr_number, author) DO UPDATE
unfoldable pub upsert_review : Pulls → ℕ → ℕ → ℕ → String → Verdict → Pulls
upsert_review t now repo number author verdict =
    if exists (review_by repo number author) t.reviews
    then record t {
      reviews =
          update (review_by repo number author)
            (λ r. record r { state = verdict; updated_at = now }) t.reviews;
    }
    else record t {
      reviews =
          t.reviews
          ++ record {
            id = t.next_review;
            repo_id = repo;
            pr_number = number;
            author = author;
            state = verdict;
            updated_at = now;
          }
            ∷ [];
      next_review = suc t.next_review;
    }

-- ORDER BY updated_at DESC
insert_newest : Review → List Review → List Review
insert_newest r [] = r ∷ []
insert_newest r (x ∷ xs) =
    let rest = insert_newest r xs in if leb x.updated_at r.updated_at then r ∷ x ∷ xs else x ∷ rest

newest_first : List Review → List Review
unfolding insert_newest
newest_first [] = []
newest_first (r ∷ rs) = insert_newest r (newest_first rs)

unfoldable pub list_reviews : Pulls → ℕ → ℕ → List Review
unfolding newest_first
list_reviews t repo number = newest_first (select (review_of repo number) t.reviews)

-- handleUpdatePull: the checks before UpdatePull. `none` for the title is a nil pointer, and
-- `trim_space` is strings.TrimSpace.
pub data UpdateReply : Type 0 where
  bad_state merged_forbidden empty_title no_fields missing : UpdateReply
  updated : Pull → UpdateReply

valid_state : String → Option PullState
valid_state s =
    if s == "open"
    then some open_state
    else if s == "merged"
    then some merged
    else if s == "closed"
    then some closed
    else none

update_reply : Pulls → Result (Pull × Pulls) → Pulls × UpdateReply
update_reply t (ok (p, t')) = (t', updated p)
update_reply t (err no_update_fields) = (t, no_fields)
update_reply t (err _) = (t, missing)

update_checked :
    Pulls → ℕ → ℕ → ℕ → Option String → Option String → Option PullState → Pulls × UpdateReply
unfolding update_reply
update_checked t now repo number title body state =
    update_reply t (update_pull t now repo number title body state)

update_titled :
    (String → String)
    → Pulls
    → ℕ
    → ℕ
    → ℕ
    → Option String
    → Option String
    → Option PullState
    → Pulls × UpdateReply
unfolding update_checked
update_titled trim_space t now repo number none body state =
    update_checked t now repo number none body state
update_titled trim_space t now repo number (some title) body state =
    if trim_space title == ""
    then (t, empty_title)
    else update_checked t now repo number (some (trim_space title)) body state

-- A state that parsed: the merged transition is the merge endpoint's.
update_state :
    (String → String)
    → Pulls
    → ℕ
    → ℕ
    → ℕ
    → Option String
    → Option String
    → PullState
    → Pulls × UpdateReply
update_state trim_space t now repo number title body merged = (t, merged_forbidden)
update_state trim_space t now repo number title body open_state =
    update_titled trim_space t now repo number title body (some open_state)
update_state trim_space t now repo number title body closed =
    update_titled trim_space t now repo number title body (some closed)

unfoldable pub handle_update_pull :
    (String → String)
    → Pulls
    → ℕ
    → ℕ
    → ℕ
    → Option String
    → Option String
    → Option String
    → Pulls × UpdateReply
unfolding update_titled valid_state update_state
handle_update_pull trim_space t now repo number title body none =
    update_titled trim_space t now repo number title body none
handle_update_pull trim_space t now repo number title body (some s) = elim (valid_state s) [
  | none ↦ (t, bad_state)
  | some state ↦ update_state trim_space t now repo number title body state
]
