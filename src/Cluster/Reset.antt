-- ===== src/Cluster/Reset.antt =====
-- `ResetCircuitBreaker` of crates/queryfabric-cluster/src/health_monitor.rs, which a hub sends when a cluster
-- registers.
use queryfabric.Base.{
  ==_sound, Bool-cases, Option-cases, arith, false, if◌then◌else◌, inl, inr, lookup, lookup-insert,
  lookup-insert_self, lookup-remove, lookup-remove_self, nat_eq, none, refl, ℕ, ◌==◌, ◌≡◌, ◌≢◌, ◌⊎◌,
}
use queryfabric.Cluster.Circuit.{
  CircuitConfig, CircuitPhase, CircuitState, closed, half_open, maybe_transition_to_half_open, new,
  open_phase, should_skip_probe,
}
use queryfabric.Cluster.Monitor.{Monitor, circuit_of, get_health, is_closed, reset_circuit_breaker}

closed_not_skipped :
    (config : CircuitConfig) (c : CircuitState) (now : ℕ)
    → c.phase ≡ closed
    → should_skip_probe (maybe_transition_to_half_open c config now) config now ≡ false
unfolding should_skip_probe maybe_transition_to_half_open
closed_not_skipped config c now h = ground (arith, h)

-- What a circuit is reset to: one that is closed is left as it is.
abbrev pub ResetTo : CircuitState → CircuitState → Type 0
ResetTo before after =
    (after.phase ≡ closed)
    × (((before.phase ≡ closed) × (after ≡ before))
        ⊎ ((before.phase ≢ closed) × (after.consecutive_failures ≡ 0) × (after.opened_at ≡ none)))

phase-ResetTo :
    (before : CircuitState) (p : CircuitPhase)
    → before.phase ≡ p
    → ResetTo before (if is_closed p then before else new)
phase-ResetTo before closed h = (h, inl (h, refl))
phase-ResetTo before open_phase h = (refl, inr ((λ e. cc), refl, refl))
phase-ResetTo before half_open h = (refl, inr ((λ e. cc), refl, refl))

reset_circuit :
    (m : Monitor) (id : ℕ)
    → let before = circuit_of m.circuits id in
      circuit_of (reset_circuit_breaker m id).circuits id
      ≡ (if is_closed before.phase then before else new)
unfolding reset_circuit_breaker
reset_circuit m id = elim (Option-cases (lookup id m.circuits)) [
  | inl fresh ↦ ground (arith, fresh)
  | inr (c, there) ↦ ground (arith, there, lookup-insert_self id new m.circuits)
]

after-ResetTo :
    (m : Monitor) (id : ℕ)
    → ResetTo (circuit_of m.circuits id) (circuit_of (reset_circuit_breaker m id).circuits id)
after-ResetTo m id =
    rw (reset_circuit m id)
      (phase-ResetTo (circuit_of m.circuits id) (circuit_of m.circuits id).phase refl)

others_kept :
    (m : Monitor) (id j : ℕ)
    → (id == j) ≡ false
    → circuit_of (reset_circuit_breaker m id).circuits j ≡ circuit_of m.circuits j
unfolding reset_circuit_breaker
others_kept m id j other = elim (Option-cases (lookup id m.circuits)) [
  | inl fresh ↦ ground (arith, fresh)
  | inr (c, there) ↦ ground (arith, there, lookup-insert id j new m.circuits)
]

-- After a reset of a cluster its circuit is closed: one that was closed is left as it was, with its
-- counted failures, and any other has no counted failure and no time at which it opened. Its cached
-- health is forgotten and any sweep probes it. Every other cluster keeps its circuit and its cached
-- health.
pub reset_pointwise :
    (m : Monitor) (id j now : ℕ)
    → let after = reset_circuit_breaker m id in
      let c = circuit_of after.circuits id in
      ResetTo (circuit_of m.circuits id) c
      × (get_health after id ≡ none)
      × (should_skip_probe (maybe_transition_to_half_open c m.config now) m.config now ≡ false)
      × ((id ≡ j)
          ⊎ ((circuit_of after.circuits j ≡ circuit_of m.circuits j)
              × (get_health after j ≡ get_health m j)))
unfolding reset_circuit_breaker get_health
reset_pointwise m id j now = (
  after-ResetTo m id,
  lookup-remove_self id m.health_cache,
  closed_not_skipped m.config _ now (after-ResetTo m id).0,
  elim (Bool-cases (id == j)) [
    | inl same ↦ inl (==_sound id j same)
    | inr other ↦
        inr (others_kept m id j other, ground (arith, other, lookup-remove id j m.health_cache))
  ],
)
