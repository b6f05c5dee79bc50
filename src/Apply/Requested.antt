-- ===== src/Apply/Requested.antt =====
-- deployment.rs, `apply_guarded`: the services that the new specification asks for.
use mathlib.Core.Option
use swarmlite.Base.{
  ◌≡◌, refl, sym, ap, ap₂, ◌∙◌, Bool, true, false, none, some, List, [], ◌∷◌, map, ◌&&◌, not, arith,
  any, is_some, &&-true, not-true, Bool-cases, Option-cases, inl, inr, Str, str_eq, str_eq_iff,
  str_eq_refl,
}
use swarmlite.Base.Map.{BTreeMap, get, keys, get-insert, get-map_values, any-keys}
use swarmlite.Scheduler.Ports.{contains}
use swarmlite.Cluster.{ServiceSpec, ServiceRecord, ClusterState}
use swarmlite.Deployment.Judged.{is_distinct}
use swarmlite.Apply.Plan.{RevisionPolicy}
use swarmlite.Apply.Services.{
  service_id, mark_deleted, Applied, new_service, apply_service, apply_services, desired_ids_of,
  start,
}
use swarmlite.Apply.Revisions.{
  service_id-eq, IsUpdated, planned, service-other, services-other, next_revision,
}

-- The services are filed under their ids.
unfoldable pub is_keyed : BTreeMap ServiceRecord → Bool
is_keyed [] = true
is_keyed ((k, s) ∷ m) = str_eq s.id k && is_keyed m

keyed-id :
    (m : BTreeMap ServiceRecord) (k : Str) (s : ServiceRecord)
    → is_keyed m ≡ true
    → get m k ≡ some s
    → s.id ≡ k
unfolding is_keyed get
keyed-id [] k s h found = absurd (cc found)
keyed-id ((j, t) ∷ m) k s h found =
    ground (arith, str_eq_iff t.id j, str_eq_iff j k, keyed-id m k s)

contains-desired :
    (stack_name : Str) (names : List Str) (name : Str)
    → any (λ n. str_eq n name) names ≡ true
    → contains (map (service_id stack_name) names) (service_id stack_name name) ≡ true
unfolding any
contains-desired stack_name [] name h = cc
contains-desired stack_name (n ∷ ns) name h =
    ground (arith, service_id-eq stack_name n name, contains-desired stack_name ns name)

module _ (previous : ClusterState) (policy : RevisionPolicy) (live : List Str) (stack_name : Str)
    (routing_ports_changed : Str → Bool) (desired_ids : List Str)
    (keyed : is_keyed previous.services ≡ true) where
  service-own :
      (name : Str) (spec : ServiceSpec) (applied next : Applied)
      → let id = service_id stack_name name in
        contains desired_ids id ≡ true
        → get applied.services id
          ≡ Option.map (mark_deleted stack_name desired_ids) (get previous.services id)
        → apply_service previous policy live stack_name routing_ports_changed name spec applied
          ≡ some next
        → IsUpdated previous policy live stack_name routing_ports_changed name spec
            (get previous.services id)
            (get next.services id)
  unfolding apply_service new_service next_revision
  service-own name spec applied next known found h =
      let id = service_id stack_name name in
      elim (Option-cases (get previous.services id)) [
        | inl l ↦
            let none_yet : get applied.services id ≡ none =
              found ∙ ap (Option.map (mark_deleted stack_name desired_ids)) l in
            let same = Option.some-injective _ _ (rw (apply_service, none_yet) at h) in
            rw l (
              new_service stack_name id name spec,
              ap (λ x. get x.services id) (sym same)
                  ∙ get-insert id id (new_service stack_name id name spec) applied.services
                  ∙ rw (str_eq_refl id) refl,
              refl,
              refl,
              refl,
            )
        | inr (before, l) ↦
            let there : get applied.services id
                ≡ some (mark_deleted stack_name desired_ids before) =
              found ∙ ap (Option.map (mark_deleted stack_name desired_ids)) l in
            rw l (
              planned previous policy live stack_name routing_ports_changed name spec desired_ids
                before applied next
                (ap (contains desired_ids) (keyed-id previous.services id before keyed l) ∙ known)
                there (rw (apply_service, there, l) at h))
      ]

  services-own :
      (specs : BTreeMap ServiceSpec) (name : Str) (spec : ServiceSpec) (applied result : Applied)
      → let id = service_id stack_name name in
        contains desired_ids id ≡ true
        → is_distinct (keys specs) ≡ true
        → get specs name ≡ some spec
        → get applied.services id
          ≡ Option.map (mark_deleted stack_name desired_ids) (get previous.services id)
        → apply_services previous policy live stack_name routing_ports_changed specs applied
          ≡ some result
        → IsUpdated previous policy live stack_name routing_ports_changed name spec
            (get previous.services id)
            (get result.services id)
  unfolding apply_services is_distinct keys get
  services-own [] name spec applied result known once asked found h = absurd (cc asked)
  services-own ((n, sp) ∷ rest) name spec applied result known once asked found h =
      let id = service_id stack_name name in
      let parts =
        &&-true (not (any (λ m. str_eq m n) (keys rest))) (is_distinct (keys rest)) once in
      elim (Option-cases
        (apply_service previous policy live stack_name routing_ports_changed n sp applied)) [
          | inl k ↦ absurd (cc (rw (apply_services, k) at h))
          | inr (next, k) ↦
              let later = rw (apply_services, k) at h in
              elim (Bool-cases (str_eq n name)) [
                | inr e ↦
                    services-own rest name spec next result known parts.1 (rw e at asked)
                      (service-other previous policy live stack_name routing_ports_changed n sp
                          applied next id (service_id-eq stack_name n name ∙ e) k
                        ∙ found)
                      later
                | inl e ↦
                    let same : n ≡ name = (str_eq_iff n name).0 e in
                    let own : sp ≡ spec = Option.some-injective _ _ (rw e at asked) in
                    let out : any (λ m. str_eq m name) (keys rest) ≡ false =
                      ap (λ x. any (λ m. str_eq m x) (keys rest)) (sym same) ∙ not-true _ parts.0 in
                    let r = service-own name spec applied next known found (
                      ap₂
                        (λ a b.
                          apply_service previous policy live stack_name routing_ports_changed a b
                            applied)
                        (sym same) (sym own)
                      ∙ k) in
                    let untouched =
                      services-other previous policy live stack_name routing_ports_changed rest next
                        result name out later in
                    (r.0, untouched ∙ r.1, r.2, r.3, r.4)
              ]
        ]

-- When the loop over the services of a new specification goes through, where the services are filed
-- under their ids and no name occurs twice, every service that the specification names has
-- afterwards exactly that specification and is not deleted; and its revision is 1 if it is new,
-- one more than before if it is forced, or if it was deleted or its specification or routed ports
-- differ and its revision is not to be preserved, and as before otherwise.
pub apply_services-IsUpdated :
    (previous : ClusterState) (policy : RevisionPolicy) (live : List Str) (stack_name : Str)
    (routing_ports_changed : Str → Bool) (specs : BTreeMap ServiceSpec) (result : Applied)
    (name : Str) (spec : ServiceSpec)
    → is_keyed previous.services ≡ true
    → is_distinct (keys specs) ≡ true
    → apply_services previous policy live stack_name routing_ports_changed specs
        (start previous stack_name specs)
      ≡ some result
    → get specs name ≡ some spec
    → IsUpdated previous policy live stack_name routing_ports_changed name spec
        (get previous.services (service_id stack_name name))
        (get result.services (service_id stack_name name))
unfolding start desired_ids_of
apply_services-IsUpdated previous policy live stack_name routing_ports_changed specs result name
      spec keyed once h asked =
    let ids = desired_ids_of stack_name specs in
    services-own previous policy live stack_name routing_ports_changed ids keyed specs name spec
      (start previous stack_name specs) result
      (contains-desired stack_name (keys specs) name (any-keys specs name ∙ ap is_some asked)) once
      asked
      (get-map_values (mark_deleted stack_name ids) previous.services (service_id stack_name name))
      h
