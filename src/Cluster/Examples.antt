-- ===== src/Cluster/Examples.antt =====
-- The circuit breaker and a sweep on concrete states.
use queryfabric.Base.{
  IsNodup, List, Option, [], arith, contains, false, if◌then◌else◌, keep, lookup, map, nat_eq, none,
  refl, some, true, ℕ, ◌-◌, ◌<◌, ◌==◌, ◌↔◌, ◌∷◌, ◌≡◌, ◌≤◌, ◌⊎◌,
}
use queryfabric.Cluster.Circuit.{
  CircuitState, closed, default_config, maybe_transition_to_half_open, new, open_phase,
  record_failure, record_success, should_skip_probe,
}
use queryfabric.Cluster.Breaker.{Event, breaker_closed_iff, fail, run, step}
use queryfabric.Cluster.Monitor.{
  Monitor, ProbeResult, check_all_clusters, circuit_of, degraded, get_health, is_delegatable_health,
  record_loop, record_one, reset_circuit_breaker, resolve, skip_loop, split_loop, split_one,
}
use queryfabric.Cluster.Sweep.{sweep_pointwise, swept_circuit, swept_health}
use queryfabric.Cluster.Routing.{
  ClusterRemoteHandle, RemoteGroup, ResourceLocation, endpoint_of, get_healthy_endpoint,
  locality_loop, place, resolve_locality,
}
use queryfabric.Cluster.Locality.{collected, is_local, is_located, resolve_locality_lem}
use queryfabric.Cluster.Delegation.{endpoint_after_sweep}
use queryfabric.Cluster.Reset.{ResetTo, reset_pointwise}
use queryfabric.Cluster.Cooldown.{breaker_cooldown}

abbrev two_fails : List Event
two_fails = fail 10 ∷ fail 20 ∷ []

abbrev opened_circuit : CircuitState
opened_circuit = record { phase = open_phase; consecutive_failures = 3; opened_at = some 30 }

open_test : run default_config new (fail 10 ∷ fail 20 ∷ fail 30 ∷ []) ≡ opened_circuit
unfolding run step record_failure
open_test = refl

breaker_closed_iff_example :
    let c = run default_config new two_fails in
    (c.consecutive_failures ≡ 2)
    × ((c.phase ≡ closed) ↔ (2 < default_config.open_threshold))
    × ((c.phase ≡ closed) ⊎ ((opened : ℕ) × (c.opened_at ≡ some opened)))
breaker_closed_iff_example = breaker_closed_iff default_config two_fails (omega arith) (omega arith)

breaker_cooldown_example :
    let c = run default_config new (fail 10 ∷ fail 20 ∷ fail 30 ∷ []) in
    (should_skip_probe (maybe_transition_to_half_open c default_config 40) default_config 40 ≡ true)
    ↔ ((3 ≤ 3) × (40 - 30 < 30_000))
breaker_cooldown_example =
    breaker_cooldown default_config (fail 10 ∷ fail 20 ∷ fail 30 ∷ []) 40 (omega arith)
      (omega arith) (omega arith, (omega arith, (omega arith, omega arith)))

-- Cluster 1 is open and skipped, cluster 2 answers, and the probe of cluster 3 times out.
abbrev monitor : Monitor
monitor = record { config = default_config; health_cache = []; circuits = (1, opened_circuit) ∷ [] }

abbrev answers : ℕ → Option (ProbeResult ℕ)
answers id = if id == 2 then some (record { health = degraded; output = 5 }) else none

abbrev all_three : List ℕ
all_three = 1 ∷ 2 ∷ 3 ∷ []

sweep_test : (check_all_clusters answers 0 40 50 monitor all_three).1 ≡ some (5 ∷ [])
unfolding check_all_clusters split_loop split_one maybe_transition_to_half_open should_skip_probe
    record_loop record_one record_success record_failure skip_loop
sweep_test = refl

sweep_pointwise_example :
    let swept = (check_all_clusters answers 0 40 50 monitor all_three).0 in
    (circuit_of swept.circuits 1 ≡ (
      if contains 1 all_three
      then swept_circuit answers 0 40 50 monitor 1
      else circuit_of monitor.circuits 1))
    × (get_health swept 1 ≡ (
        if contains 1 all_three
        then some (swept_health answers 0 40 50 monitor 1)
        else get_health monitor 1))
sweep_pointwise_example =
    sweep_pointwise answers 0 40 50 monitor all_three 1 ((refl, (refl, tt)), ((refl, tt), (tt, tt)))

-- Resources 1 and 3 live on cluster 2, and resource 2 is known nowhere.
abbrev index : List (ℕ × ResourceLocation)
index =
    (1, record { cluster_id = 2; tables = [] }) ∷ (3, record { cluster_id = 2; tables = [] }) ∷ []

locality_test : resolve_locality index (1 ∷ 2 ∷ 3 ∷ []) ≡ record {
  local_ids = 2 ∷ [];
  remote = record { cluster_id = 2; resource_ids = 1 ∷ 3 ∷ [] } ∷ [];
}
unfolding resolve_locality locality_loop place
locality_test = refl

resolve_locality_lem_example :
    let d = resolve_locality index all_three in
    (d.local_ids ≡ keep (is_local index) all_three)
    × ((c : ℕ) → collected c d.remote ≡ keep (is_located index c) all_three)
    × IsNodup (map (λ (g : RemoteGroup). g.cluster_id) d.remote)
resolve_locality_lem_example = resolve_locality_lem index all_three

abbrev refs : List (ℕ × ClusterRemoteHandle)
refs =
    (
      2,
      record {
        cluster_id = 2;
        cluster_name = "b";
        dht_name = "cluster:b";
        flight_endpoint = some "b:1";
        flight_tls = true;
      },
    )
    ∷ []

endpoint_after_sweep_example :
    let swept = (check_all_clusters answers 0 40 50 monitor all_three).0 in
    let c = maybe_transition_to_half_open (circuit_of monitor.circuits 2) monitor.config 40 in
    get_healthy_endpoint refs swept.health_cache 2 ≡ (
      if should_skip_probe c monitor.config 40
      then none
      else if is_delegatable_health (resolve 0 (answers 2)).health
      then elim (lookup 2 refs) [ none ↦ none | some handle ↦ endpoint_of handle ]
      else none)
endpoint_after_sweep_example =
    endpoint_after_sweep answers 0 40 50 monitor refs all_three 2
      ((refl, (refl, tt)), ((refl, tt), (tt, tt))) refl

reset_pointwise_example :
    let after = reset_circuit_breaker monitor 1 in
    let c = circuit_of after.circuits 1 in
    ResetTo (circuit_of monitor.circuits 1) c
    × (get_health after 1 ≡ none)
    × (should_skip_probe (maybe_transition_to_half_open c monitor.config 40) monitor.config 40
        ≡ false)
    × ((◌≡◌ {A = ℕ} 1 2)
        ⊎ ((circuit_of after.circuits 2 ≡ circuit_of monitor.circuits 2)
            × (get_health after 2 ≡ get_health monitor 2)))
reset_pointwise_example = reset_pointwise monitor 1 2 40
