-- ===== src/Scheduler/Placement/Order.antt =====
-- The sort key of `schedule_task` is strictly ordered.
use swarmlite.Base.{◌≡◌, ◌||◌, true, false, arith, str_lt_asymm, str_lt_cotrans}
use swarmlite.Base.Sort.{IsOrder}
use swarmlite.Cluster.{NodeRecord, ServiceRecord, ClusterState}
use swarmlite.Scheduler.Placement.{Key, key_lt, node_key}

key_lt_asymm : (k l : Key) → key_lt k l ≡ true → key_lt l k ≡ false
unfolding key_lt
key_lt_asymm (a, b, c, s) (a', b', c', s') h = ground (arith, str_lt_asymm s s')

key_lt_cotrans : (k l m : Key) → key_lt k m ≡ true → (key_lt k l || key_lt l m) ≡ true
unfolding key_lt
key_lt_cotrans (a, b, c, s) (a', b', c', s') (a'', b'', c'', s'') h =
    ground (arith, str_lt_cotrans s s' s'')

pub node_key-IsOrder :
    (state : ClusterState) (service : ServiceRecord)
    → IsOrder {A = NodeRecord} (λ a b. key_lt (node_key state service a) (node_key state service b))
node_key-IsOrder state service = record {
  asymm = λ a b. key_lt_asymm (node_key state service a) (node_key state service b);
  cotrans = λ a b c.
      key_lt_cotrans (node_key state service a) (node_key state service b)
        (node_key state service c);
}
