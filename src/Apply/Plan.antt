-- ===== src/Apply/Plan.antt =====
-- deployment.rs: `RevisionPolicy` and `service_update_plan`; crates/swarmlite-stack/src/lib.rs:
-- `PullPolicy::refreshes_cached_image`.
use swarmlite.Base.{
  ℕ, Bool, true, false, none, some, ◌&&◌, ◌||◌, not, if◌then◌else◌, is_none, Str, codes, str_eq,
}
use swarmlite.Base.Scan.{contains_char, rsplit_once}
use swarmlite.Cluster.{PullPolicy, ServiceSpec, ServiceRecord, same_spec}

abbrev pub u64_max : ℕ
u64_max = 0xffffffffffffffff

pub data RevisionPolicy : Type 0 where
  detect_changes : RevisionPolicy
  force : Str → RevisionPolicy
  prepared : (target operation_id : Str) → RevisionPolicy
  preserve : Str → RevisionPolicy

unfoldable pub forces : RevisionPolicy → Str → Bool
forces (RevisionPolicy.force target) service = str_eq target service
forces (RevisionPolicy.prepared target id) service = str_eq target service
forces _ service = false

unfoldable pub preserves : RevisionPolicy → Str → Bool
preserves (RevisionPolicy.preserve target) service = str_eq target service
preserves _ service = false

unfoldable pub refreshes_images : RevisionPolicy → Bool
refreshes_images RevisionPolicy.detect_changes = true
refreshes_images _ = false

-- The text after the last slash.
unfoldable pub image_name : Str → Str
image_name image = elim (rsplit_once b'/' image) [ none ↦ image | some parts ↦ parts.1 ]

unfoldable pub image_uses_latest_tag : Str → Bool
image_uses_latest_tag image =
    if contains_char b'@' image then false else elim (rsplit_once b':' (image_name image)) [
      | some parts ↦ str_eq parts.1 (codes "latest")
      | none ↦ true
    ]

unfoldable pub refreshes_cached_image : PullPolicy → Str → Bool
refreshes_cached_image PullPolicy.always image = true
refreshes_cached_image PullPolicy.missing image = image_uses_latest_tag image
refreshes_cached_image PullPolicy.never image = false

pub data ServiceUpdatePlan : Type 0 where
  verify_only : ServiceUpdatePlan
  resolve_image : ServiceUpdatePlan
  reconcile : (bump_revision : Bool) → ServiceUpdatePlan

-- The service has been deleted, or its specification or its routed ports are new.
unfoldable pub service_changed : ServiceRecord → ServiceSpec → (routing_ports_changed : Bool) → Bool
service_changed previous next routing_ports_changed =
    previous.deleted || not (same_spec previous.spec next) || routing_ports_changed

unfoldable pub service_update_plan :
    ServiceRecord
    → ServiceSpec
    → (routing_ports_changed : Bool) → RevisionPolicy
    → ServiceUpdatePlan
service_update_plan previous next routing_ports_changed revision_policy =
    if forces revision_policy previous.name
    then ServiceUpdatePlan.reconcile true
    else if service_changed previous next routing_ports_changed
    then ServiceUpdatePlan.reconcile (not (preserves revision_policy previous.name))
    else if is_none next.job
        && refreshes_images revision_policy
        && refreshes_cached_image next.pull_policy next.image
    then ServiceUpdatePlan.resolve_image
    else ServiceUpdatePlan.verify_only
