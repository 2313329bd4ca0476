-- ===== src/Cluster/Monitor.antt =====
-- `HealthMonitorActor` of crates/queryfabric-cluster/src/health_monitor.rs: the three messages that the actor
-- handles, over the cache that it shares. A cluster id is a number. The host's probe and the timeout
-- are arguments: `probe` gives each cluster a result, or `none` when the timeout elapses first, and
-- the sweep reads the clock at `now` before the probes and at `later` behind them. The probes of a
-- sweep run at once; their results are taken in the order of `to_probe`. Logging is left out, and
-- `on_successful_sweep` is what the handler returns, its argument or `none` if it is not called.
use queryfabric.Base.{
  Bool, List, Option, [], false, if◌then◌else◌, insert, lookup, nat_eq, none, remove, some, true, ℕ,
  ◌++◌, ◌∷◌,
}
use queryfabric.Cluster.Circuit.{
  CircuitConfig, CircuitPhase, CircuitState, closed, maybe_transition_to_half_open, new,
  record_failure, record_success, should_skip_probe,
}

pub data Health : Type 0 where
  healthy degraded unreachable unknown : Health

-- `Health::is_delegatable` of crates/queryfabric-contract/src/cluster.rs
abbrev pub is_delegatable_health : Health → Bool
is_delegatable_health healthy = true
is_delegatable_health degraded = true
is_delegatable_health _ = false

abbrev pub is_unreachable : Health → Bool
is_unreachable unreachable = true
is_unreachable _ = false

pub record ProbeResult (O : Type 0) : Type 0 where
  pub health : Health
  pub output : O

abbrev pub Circuits : Type 0
Circuits = List (ℕ × CircuitState)

abbrev pub HealthCache : Type 0
HealthCache = List (ℕ × Health)

pub record Monitor : Type 0 where
  pub config : CircuitConfig
  pub health_cache : HealthCache
  pub circuits : Circuits

-- `circuits.entry(cluster_id).or_default()`
abbrev pub circuit_of : Circuits → ℕ → CircuitState
circuit_of circuits id = elim (lookup id circuits) [ none ↦ new | some c ↦ c ]

-- The first loop: the circuits, `to_probe` and `skipped`.
pub record Split : Type 0 where
  pub circuits : Circuits
  pub to_probe : List ℕ
  pub skipped : List ℕ

unfoldable pub split_one : CircuitConfig → ℕ → Split → ℕ → Split
unfolding maybe_transition_to_half_open should_skip_probe
split_one config now s id =
    let c = maybe_transition_to_half_open (circuit_of s.circuits id) config now in
    let circuits = insert id c s.circuits in
    if should_skip_probe c config now
    then record { circuits = circuits; to_probe = s.to_probe; skipped = s.skipped ++ id ∷ [] }
    else record { circuits = circuits; to_probe = s.to_probe ++ id ∷ []; skipped = s.skipped }

unfoldable pub split_loop : CircuitConfig → ℕ → Split → List ℕ → Split
unfolding split_one
split_loop config now s [] = s
split_loop config now s (id ∷ ids) = split_loop config now (split_one config now s id) ids

-- The second loop: the cache, the circuits and `successful_outputs`.
pub record Swept (O : Type 0) : Type 0 where
  pub health_cache : HealthCache
  pub circuits : Circuits
  pub outputs : List O

module _ {O : Type 0} where
  -- A probe that times out counts as unreachable, with the default output.
  abbrev pub resolve : O → Option (ProbeResult O) → ProbeResult O
  resolve default_output none = record { health = unreachable; output = default_output }
  resolve default_output (some result) = result

  unfoldable pub record_one : CircuitConfig → ℕ → Swept O → ℕ → ProbeResult O → Swept O
  unfolding record_failure record_success
  record_one config later s id result =
      let c = circuit_of s.circuits id in
      let cache = insert id result.health s.health_cache in
      if is_unreachable result.health
      then record {
        health_cache = cache;
        circuits = insert id (record_failure c config later) s.circuits;
        outputs = s.outputs;
      }
      else record {
        health_cache = cache;
        circuits = insert id (record_success c) s.circuits;
        outputs = s.outputs ++ result.output ∷ [];
      }

  unfoldable pub record_loop : CircuitConfig → ℕ → (ℕ → ProbeResult O) → Swept O → List ℕ → Swept O
  unfolding record_one
  record_loop config later results s [] = s
  record_loop config later results s (id ∷ ids) =
      record_loop config later results (record_one config later s id (results id)) ids

-- The last loop: a skipped cluster stays unreachable.
unfoldable pub skip_loop : HealthCache → List ℕ → HealthCache
skip_loop cache [] = cache
skip_loop cache (id ∷ ids) = skip_loop (insert id unreachable cache) ids

abbrev pub hook {ℓ} : {A : Type ℓ} → List A → Option (List A)
hook [] = none
hook (o ∷ os) = some (o ∷ os)

-- The handler of `CheckAllClusters`.
unfoldable pub check_all_clusters :
    {O : Type 0} (probe : ℕ → Option (ProbeResult O)) (default_output : O) (now later : ℕ)
    → Monitor
    → List ℕ
    → Monitor × Option (List O)
unfolding split_loop record_loop skip_loop
check_all_clusters probe default_output now later m [] = (m, none)
check_all_clusters probe default_output now later m (id ∷ ids) =
    let start : Split = record { circuits = m.circuits; to_probe = []; skipped = [] } in
    let s = split_loop m.config now start (id ∷ ids) in
    let swept =
      record_loop m.config later (λ i. resolve default_output (probe i))
        (record { health_cache = m.health_cache; circuits = s.circuits; outputs = [] })
        s.to_probe in
    (
      record m { health_cache = skip_loop swept.health_cache s.skipped; circuits = swept.circuits },
      hook swept.outputs,
    )

-- The handler of `GetHealth`.
unfoldable pub get_health : Monitor → ℕ → Option Health
get_health m id = lookup id m.health_cache

abbrev pub is_closed : CircuitPhase → Bool
is_closed closed = true
is_closed _ = false

-- The handler of `ResetCircuitBreaker`.
unfoldable pub reset_circuit_breaker : Monitor → ℕ → Monitor
reset_circuit_breaker m id =
    let circuits : Circuits = elim (lookup id m.circuits) [
      | none ↦ m.circuits
      | some c ↦ if is_closed c.phase then m.circuits else insert id new m.circuits
    ] in
    record m { circuits = circuits; health_cache = remove id m.health_cache }
