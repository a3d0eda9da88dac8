-- ===== src/Sync/Cleanup/Tests.antt =====
-- app/core/issue_sync.py: `cleanup_orphaned_resources` on concrete rows.
use mirror_maestro.Common.{All, false, [], ◌≡◌, ◌==◌, refl, arith}
use mirror_maestro.Errors.{returned}
use mirror_maestro.Mirrors.Deletion.{IssueMapping, CommentMapping, delete_where, ids_where}
use mirror_maestro.Mirrors.Deletion.Others.{rows_of}
use mirror_maestro.Mirrors.Deletion.Tests.{rows}
use mirror_maestro.Sync.Cleanup.{cleanup_orphaned_resources, unique_ids, count_orphans, own_ids}
use mirror_maestro.Sync.Cleanup.Foreign.{cleanup_orphaned_resources_lem}

second_is_foreign :
    All (λ m. IssueMapping.id m ≡ 21 → m.mirror_issue_config_id == 10 ≡ false) rows.issues
second_is_foreign = (λ h. ground (arith, h), (λ h. refl, tt))

cleanup_orphaned_resources_lem_example :
    let after = (cleanup_orphaned_resources 10 (returned []) (returned []) rows).1 in
    (rows_of CommentMapping.issue_mapping_id 21 after.comments ≡ [])
    × (rows_of CommentMapping.issue_mapping_id 11 after.comments
        ≡ rows_of CommentMapping.issue_mapping_id 11 rows.comments)
    × (after.issues ≡ rows.issues)
unfolding cleanup_orphaned_resources unique_ids count_orphans own_ids ids_where delete_where
cleanup_orphaned_resources_lem_example =
    cleanup_orphaned_resources_lem 10 (returned []) (returned []) rows 21 11 refl second_is_foreign
      refl
