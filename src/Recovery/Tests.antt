-- ===== src/Recovery/Tests.antt =====
-- Runs of the adoption, and its theorems on a cluster whose controller has been restarted: two
-- containers of the service in slot 0 on node `a` and one in slot 1 on node `b`.
use swarmlite.Base.{
  ℕ, ◌≡◌, ◌≤◌, ◌⊎◌, refl, none, some, max, count, filter, any, all, str_lt, [], ◌∷◌, Str, codes,
  map, str_eq,
}
use swarmlite.Base.Map.{get, values, insert, remove}
use swarmlite.Cluster.{
  ServiceSpec, ObservedTaskState, TaskRecord, UnclaimedTask, ClusterState, routed_service_ports,
  http_routed_service_ports, http_rule_ports, tcp_route_ports, route_rules, set_extend, set_insert,
}
use swarmlite.Scheduler.Samples.{binding, service, updating}
use swarmlite.Recovery.Adoption.{
  adopt_unclaimed_tasks, adopt_services, recovery_candidates, adopt_candidates, slots_of,
  is_adoptable, recovery_candidate_matches, binds_ports, candidate_lt, recovery_task_priority,
  adopted_task, claim, occupies_slot,
}
use swarmlite.Scheduler.Ports.{service_ports}
use swarmlite.Base.Sort.{sort_by, insert_by}
use swarmlite.Recovery.Status.{recovery_status, conflicts, same_slot}
use swarmlite.Recovery.Slots.{adopt_unclaimed_tasks_exclusive, is_in_slot}
use swarmlite.Recovery.Origin.{adopt_unclaimed_tasks-IsClaimed, IsClaimed}

abbrev spec_hash : ServiceSpec → Str
spec_hash spec = spec.image

abbrev found : Str → Str → ℕ → ObservedTaskState → UnclaimedTask
found id node_id slot observed = record {
  id = id;
  stack = codes "demo";
  service = codes "web";
  slot = slot;
  revision = 2;
  spec_hash = codes "example/web:v2";
  node_id = node_id;
  observed = observed;
  ports = binding ∷ [];
  config_digests = [];
  container_id = some id;
}

-- `t1` takes slot 0 already in `updating`; here nothing runs yet.
abbrev restarted : ClusterState
restarted = record updating {
  tasks = [];
  services = (codes "demo.web", service 2 1) ∷ [];
  unclaimed_tasks =
      (codes "u1", found (codes "u1") (codes "a") 0 ObservedTaskState.running)
      ∷ (codes "u2", found (codes "u2") (codes "a") 0 ObservedTaskState.healthy)
      ∷ (codes "u3", found (codes "u3") (codes "b") 1 ObservedTaskState.healthy)
      ∷ [];
}

abbrev adopted : ClusterState
adopted = adopt_unclaimed_tasks spec_hash restarted (codes "demo")

-- The healthy one of the two in slot 0 is adopted.
adoption : Unit {0}
unfolding adopt_unclaimed_tasks adopt_services recovery_candidates adopt_candidates slots_of
    is_adoptable recovery_candidate_matches binds_ports candidate_lt recovery_task_priority
    adopted_task claim occupies_slot service_ports routed_service_ports http_routed_service_ports
    http_rule_ports tcp_route_ports route_rules set_extend set_insert sort_by insert_by str_lt
    str_eq values get insert remove filter any all
adoption = tt

adopted_ids : map (λ t. t.id) (values adopted.tasks) ≡ codes "u2" ∷ codes "u3" ∷ []
unfolding adoption
adopted_ids = refl

left_over : map (λ t. t.id) (values adopted.unclaimed_tasks) ≡ codes "u1" ∷ []
unfolding adoption
left_over = refl

waiting : recovery_status restarted ≡ record { awaiting_adoption = 3; conflicting_slots = 1 }
unfolding recovery_status values conflicts any same_slot str_eq count
waiting = refl

adopt_unclaimed_tasks_exclusive_example :
    count
      (is_in_slot (codes "demo.web") 0)
      (values (adopt_unclaimed_tasks spec_hash restarted (codes "demo")).tasks)
    ≤ max 1 (count (is_in_slot (codes "demo.web") 0) (values restarted.tasks))
adopt_unclaimed_tasks_exclusive_example =
    adopt_unclaimed_tasks_exclusive spec_hash restarted (codes "demo") (codes "demo.web") 0

adopt_unclaimed_tasks-IsClaimed_example :
    (get adopted.tasks (codes "u2") ≡ get restarted.tasks (codes "u2"))
    ⊎ ((get restarted.tasks (codes "u2") ≡ none)
        × ((task : TaskRecord) × (get adopted.tasks (codes "u2") ≡ some task)
            × IsClaimed spec_hash restarted task
            × (get adopted.unclaimed_tasks (codes "u2") ≡ none)))
adopt_unclaimed_tasks-IsClaimed_example =
    adopt_unclaimed_tasks-IsClaimed spec_hash restarted (codes "demo") (codes "u2")
