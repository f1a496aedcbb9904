-- ===== src/GitWriteback/Repo.antt =====
-- internal/gitwriteback/git.go: `Clone` and `CommitAndPush`. go-git is a parameter, over a state
-- that holds the files of the machine and what the remotes have received.
use image_updater_operator.Prelude.{
  ℕ, Bool, true, false, Option, none, some, List, [], ◌∷◌, ◌++◌, Bytes, codes,
}
use image_updater_operator.Prelude.Result.{Result, ok, err, wrap_err}

pub record Author : Type 0 where
  pub name : Bytes
  pub email : Bytes

-- `object.Signature`
pub record Signature : Type 0 where
  pub name : Bytes
  pub email : Bytes
  pub when : ℕ

-- The options of a clone and of a push that the code sets, with credentials of type A.
pub record CloneOptions (A : Type 0) : Type 0 where
  pub url : Bytes
  pub auth : Option A
  pub reference_name : Bytes
  pub single_branch : Bool
  pub depth : ℕ

pub record PushOptions (A : Type 0) : Type 0 where
  pub auth : Option A
  pub ref_specs : List Bytes
  pub remote_name : Bytes

-- An error of a push: `git.NoErrAlreadyUpToDate`, or another one.
pub data PushFailure : Type 0 where
  already_up_to_date : PushFailure
  push_failure : Bytes → PushFailure

pub record GitLib (S A : Type 0) : Type 1 where
  pub Repository : Type 0
  pub Worktree : Type 0
  pub branch_reference : Bytes → Bytes
  pub plain_clone : S → Bytes → Bool → CloneOptions A → S × Result Bytes Repository
  pub worktree : S → Repository → Result Bytes Worktree
  pub add : S → Worktree → Bytes → S × Option Bytes
  pub commit : S → Worktree → Bytes → Signature → Signature → S × Result Bytes Bytes
  pub push : S → Repository → PushOptions A → S × Option PushFailure

-- The errors, with the operands of their messages.
pub data CloneError : Type 0 where
  cloning : Bytes → Bytes → Bytes → CloneError

pub data CommitError : Type 0 where
  no_worktree : Bytes → CommitError
  staging : Bytes → Bytes → CommitError
  committing : Bytes → CommitError
  pushing : Bytes → CommitError

module _ {S A : Type 0} (G : GitLib S A) where
  unfoldable pub clone : S → Bytes → Bytes → Bytes → Option A → S × Result CloneError G.Repository
  clone s url branch dir auth =
      let cloned = G.plain_clone s dir false (record {
        url = url;
        auth = auth;
        reference_name = G.branch_reference branch;
        single_branch = true;
        depth = 1;
      }) in
      (cloned.0, wrap_err (cloning url branch) cloned.1)

  -- The loop over the paths, with the error that ends it.
  unfoldable pub stage : S → G.Worktree → List Bytes → S × Option CommitError
  stage s wt [] = (s, none)
  stage s wt (p ∷ paths) =
      let added = G.add s wt p in
      let rest = stage added.0 wt paths in
      elim added.1 [ none ↦ rest | some e ↦ (added.0, some (staging p e)) ]

  -- `refs/heads/<branch>:refs/heads/<branch>`
  unfoldable pub ref_spec : Bytes → Bytes
  ref_spec branch = codes "refs/heads/" ++ branch ++ codes ":refs/heads/" ++ branch

  -- The push, whose error `git.NoErrAlreadyUpToDate` is none.
  unfoldable pub push_branch : S → G.Repository → Bytes → Option A → S × Option CommitError
  push_branch s repo branch auth =
      let pushed =
        G.push s repo (record {
          auth = auth;
          ref_specs = ref_spec branch ∷ [];
          remote_name = codes "origin";
        }) in
      (
        pushed.0,
        elim pushed.1 [
          | none ↦ none
          | some failure ↦ elim failure [
            | already_up_to_date ↦ none
            | push_failure e ↦ some (pushing e)
          ]
        ],
      )

  -- What follows the commit with this hash.
  unfoldable pub finish :
      S → G.Repository → Bytes → Option A → Bool → Bytes → S × Result CommitError Bytes
  finish s repo branch auth false hash = (s, ok hash)
  finish s repo branch auth true hash =
      let pushed = push_branch s repo branch auth in
      (pushed.0, elim pushed.1 [ none ↦ ok hash | some e ↦ err e ])

  -- What follows the staging.
  unfoldable pub commit_staged :
      S
      → G.Repository
      → G.Worktree
      → Signature
      → Bytes
      → Bytes
      → Option A
      → Bool
      → S × Result CommitError Bytes
  commit_staged s repo wt sig message branch auth push =
      let committed = G.commit s wt message sig sig in
      elim committed.1 [
        | err e ↦ (committed.0, err (committing e))
        | ok hash ↦ finish committed.0 repo branch auth push hash
      ]

  unfoldable pub commit_and_push :
      ℕ
      → S
      → G.Repository
      → List Bytes
      → Author
      → Bytes
      → Bytes
      → Option A
      → Bool
      → S × Result CommitError Bytes
  commit_and_push now s repo paths author message branch auth push = elim (G.worktree s repo) [
    | err e ↦ (s, err (no_worktree e))
    | ok wt ↦
        let staged = stage s wt paths in
        let sig : Signature = record { name = author.name; email = author.email; when = now } in
        elim staged.1 [
          | some e ↦ (staged.0, err e)
          | none ↦ commit_staged staged.0 repo wt sig message branch auth push
        ]
  ]
