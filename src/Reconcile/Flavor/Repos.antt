-- ===== src/Reconcile/Flavor/Repos.antt =====
-- When the repos of two configs ask for a restart of the machine (internal/reconcile/diff.go).
use devm.Base.{
  ◌≡◌, refl, ap, ◌∙◌, Bool, false, ◌&&◌, not, Option, none, some, arith, ◌==◌, nat_eq, bool_eq,
  pair_eq, any, Bytes, bytes_eq,
}
use devm.Base.Assoc.{lookup}
use devm.Schema.Config.{Config, RepoConfig}
use devm.Reconcile.Change.{bucket, change_bucket, needs_teardown, needs_restart}
use mathlib.Core.Path.{fun_ext}
use devm.Base.Rounds.{any-concat_map}
use devm.Reconcile.Walk.{union_keys}
use devm.Reconcile.Compare.{pointer_equal, walk_keys, any-walk_keys}
use devm.Reconcile.Storage.{repo_field_changes, repo_difference, compute_repo_changes}
use devm.Reconcile.Flavor.Found.{◌found_with◌, unless_same-Finds}

-- A repo in both configs whose clone has to be made again.
unfoldable pub recloned : Option RepoConfig → Option RepoConfig → Bool
recloned none n = false
recloned (some o) none = false
recloned (some o) (some n) = not (pointer_equal o.url n.url && o.secret == n.secret)

repo_field_changes-teardown :
    (k : Bytes) (o n : RepoConfig) → any needs_teardown (repo_field_changes k o n) ≡ false
unfolding repo_field_changes bucket change_bucket
repo_field_changes-teardown k o n =
    (unless_same-Finds needs_teardown _ _
      found_with unless_same-Finds needs_teardown _ _
      found_with unless_same-Finds needs_teardown _ _
      found_with unless_same-Finds needs_teardown _ _
      found_with unless_same-Finds needs_teardown _ _
      found_with unless_same-Finds needs_teardown _ _).found
    ∙ ground arith

repo_field_changes-restart :
    (k : Bytes) (o n : RepoConfig)
    → any needs_restart (repo_field_changes k o n) ≡ recloned (some o) (some n)
unfolding repo_field_changes bucket change_bucket recloned
repo_field_changes-restart k o n =
    (unless_same-Finds needs_restart _ _
      found_with unless_same-Finds needs_restart _ _
      found_with unless_same-Finds needs_restart _ _
      found_with unless_same-Finds needs_restart _ _
      found_with unless_same-Finds needs_restart _ _
      found_with unless_same-Finds needs_restart _ _).found
    ∙ ground arith

pub compute_repo_changes-teardown :
    (old new : Config) → any needs_teardown (compute_repo_changes old new) ≡ false
unfolding compute_repo_changes repo_difference bucket change_bucket
compute_repo_changes-teardown old new =
    any-walk_keys needs_teardown repo_difference old.repos new.repos each
  where
    each :
        (k : Bytes) (o n : Option RepoConfig) → any needs_teardown (repo_difference k o n) ≡ false
    each k none none = refl
    each k none (some n) = refl
    each k (some o) none = refl
    each k (some o) (some n) = repo_field_changes-teardown k o n

-- Whether some repo of both configs has to be cloned again.
unfoldable pub some_recloned : Config → Config → Bool
some_recloned old new =
    any (λ k. recloned (lookup k old.repos) (lookup k new.repos)) (union_keys old.repos new.repos)

repo_difference-restart :
    (k : Bytes) (o n : Option RepoConfig) → any needs_restart (repo_difference k o n) ≡ recloned o n
unfolding repo_difference recloned bucket change_bucket
repo_difference-restart k none none = refl
repo_difference-restart k none (some n) = refl
repo_difference-restart k (some o) none = refl
repo_difference-restart k (some o) (some n) = repo_field_changes-restart k o n

pub compute_repo_changes-restart :
    (old new : Config) → any needs_restart (compute_repo_changes old new) ≡ some_recloned old new
unfolding compute_repo_changes walk_keys some_recloned
compute_repo_changes-restart old new =
    any-concat_map needs_restart _ (union_keys old.repos new.repos)
    ∙ ap (λ f. any f (union_keys old.repos new.repos))
        (fun_ext (λ k. repo_difference-restart k (lookup k old.repos) (lookup k new.repos)))
