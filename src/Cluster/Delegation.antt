-- ===== src/Cluster/Delegation.antt =====
-- How a sweep of crates/queryfabric-cluster/src/health_monitor.rs bears on `get_healthy_endpoint` of
-- crates/queryfabric-cluster/src/routing.rs.
use queryfabric.Base.{
  IsNodup, List, Option, arith, contains, if◌then◌else◌, lookup, nat_eq, none, some, true, ℕ, ◌≡◌,
}
use queryfabric.Cluster.Circuit.{maybe_transition_to_half_open, should_skip_probe}
use queryfabric.Cluster.Monitor.{
  Monitor, ProbeResult, check_all_clusters, circuit_of, get_health, is_delegatable_health, resolve,
}
use queryfabric.Cluster.Routing.{
  ClusterRemoteHandle, endpoint_of, get_healthy_endpoint, is_delegatable,
}
use queryfabric.Cluster.Sweep.{sweep_pointwise}

-- After a sweep over distinct clusters that contain `j`, requests go to the endpoint of `j` exactly as
-- its handle says if its circuit let it be probed and the probe gave a delegatable health, and
-- nowhere if the circuit is open in its cooldown, the probe timed out, or the health is not
-- delegatable.
pub endpoint_after_sweep :
    {O : Type 0} (probe : ℕ → Option (ProbeResult O)) (default_output : O) (now later : ℕ)
    (m : Monitor) (refs : List (ℕ × ClusterRemoteHandle)) (ids : List ℕ) (j : ℕ)
    → IsNodup ids
    → contains j ids ≡ true
    → let swept = (check_all_clusters probe default_output now later m ids).0 in
      let c = maybe_transition_to_half_open (circuit_of m.circuits j) m.config now in
      get_healthy_endpoint refs swept.health_cache j ≡ (
        if should_skip_probe c m.config now
        then none
        else if is_delegatable_health (resolve default_output (probe j)).health
        then elim (lookup j refs) [ none ↦ none | some handle ↦ endpoint_of handle ]
        else none)
unfolding get_healthy_endpoint is_delegatable get_health
endpoint_after_sweep probe default_output now later m refs ids j d there =
    let health = (sweep_pointwise probe default_output now later m ids j d).1 in
    ground (arith, health, there)
