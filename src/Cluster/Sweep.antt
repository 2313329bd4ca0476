-- ===== src/Cluster/Sweep.antt =====
-- A sweep of crates/queryfabric-cluster/src/health_monitor.rs, seen from one cluster: the loops over all clusters
-- do to each what the circuit breaker says, and nothing to another.
use queryfabric.Base.{
  All, All-map, Bool, Bool-cases, IsNodup, IsNodup-keep, List, Option, [], ap, append-nil,
  append_assoc, arith, contains, contains-keep, false, if◌then◌else◌, inl, inr, insert, keep,
  keep-cons, keep_ext, lookup, lookup-insert, nat_eq, not, not_contains, refl, some, subst, sym, ℕ,
  ◌++◌, ◌==◌, ◌∙◌, ◌∷◌, ◌≡◌,
}
use queryfabric.Cluster.Circuit.{
  CircuitConfig, CircuitState, maybe_transition_to_half_open, record_failure, record_success,
  should_skip_probe,
}
use queryfabric.Cluster.Monitor.{
  Circuits, Health, HealthCache, Monitor, ProbeResult, Split, Swept, check_all_clusters, circuit_of,
  get_health, is_unreachable, record_loop, record_one, resolve, skip_loop, split_loop, split_one,
  unreachable,
}

circuit_of-insert :
    (id j : ℕ) (c : CircuitState) (circuits : Circuits)
    → circuit_of (insert id c circuits) j ≡ (if id == j then c else circuit_of circuits j)
circuit_of-insert id j c circuits = ground (arith, lookup-insert id j c circuits)

module _ (config : CircuitConfig) (now : ℕ) where
  -- A circuit behind the first loop.
  abbrev pub eased : CircuitState → CircuitState
  eased c = maybe_transition_to_half_open c config now

  abbrev pub skipped : Circuits → ℕ → Bool
  skipped circuits id = should_skip_probe (eased (circuit_of circuits id)) config now

  abbrev pub probed : Circuits → ℕ → Bool
  probed circuits id = not (skipped circuits id)

  split_one-circuits :
      (s : Split) (id j : ℕ)
      → circuit_of (split_one config now s id).circuits j
        ≡ (if id == j then eased (circuit_of s.circuits id) else circuit_of s.circuits j)
  unfolding split_one
  split_one-circuits s id j =
      ground (arith, circuit_of-insert id j (eased (circuit_of s.circuits id)) s.circuits)

  split_loop-circuits :
      (s : Split) (ids : List ℕ) (j : ℕ)
      → IsNodup ids
      → circuit_of (split_loop config now s ids).circuits j
        ≡ (if contains j ids then eased (circuit_of s.circuits j) else circuit_of s.circuits j)
  unfolding split_loop
  split_loop-circuits s [] j d = refl
  split_loop-circuits s (id ∷ ids) j d = ground (
    arith,
    split_loop-circuits (split_one config now s id) ids j d.1,
    split_one-circuits s id j,
    not_contains id ids d.0,
  )

  -- A cluster that is not the one swept keeps its place on either list.
  same_skips :
      (s : Split) (id : ℕ) (ids : List ℕ)
      → All (λ j. (id == j) ≡ false) ids
      → All (λ j. skipped (split_one config now s id).circuits j ≡ skipped s.circuits j) ids
  same_skips s id ids d =
      All-map ids
        (λ j apart.
          ap (λ c. should_skip_probe (eased c) config now)
            (let at_j = split_one-circuits s id j in rw apart at at_j))
        d

  split_one-lists :
      (s : Split) (id : ℕ)
      → ((split_one config now s id).to_probe ≡ s.to_probe ++ keep (probed s.circuits) (id ∷ []))
        × ((split_one config now s id).skipped ≡ s.skipped ++ keep (skipped s.circuits) (id ∷ []))
  unfolding split_one
  split_one-lists s id = elim (Bool-cases (skipped s.circuits id)) [
    | inl skips ↦ rw skips (sym (append-nil s.to_probe), refl)
    | inr probes ↦ rw probes (refl, sym (append-nil s.skipped))
  ]

  split_loop-lists :
      (s : Split) (ids : List ℕ)
      → IsNodup ids
      → ((split_loop config now s ids).to_probe ≡ s.to_probe ++ keep (probed s.circuits) ids)
        × ((split_loop config now s ids).skipped ≡ s.skipped ++ keep (skipped s.circuits) ids)
  unfolding split_loop
  split_loop-lists s [] d = (sym (append-nil s.to_probe), sym (append-nil s.skipped))
  split_loop-lists s (id ∷ ids) d =
      let s1 = split_one config now s id in
      let (probes, skips) = split_loop-lists s1 ids d.1 in
      let (probe, skip) = split_one-lists s id in
      let same = same_skips s id ids d.0 in
      let same_probed =
        All-map {P = λ j. skipped s1.circuits j ≡ skipped s.circuits j}
          {Q = λ j. probed s1.circuits j ≡ probed s.circuits j} ids (λ j e. ap not e) same in
      (
        probes
            ∙ ap (λ l. s1.to_probe ++ l) (keep_ext _ _ ids same_probed)
            ∙ ap (λ l. l ++ keep (probed s.circuits) ids) probe
            ∙ append_assoc s.to_probe (keep (probed s.circuits) (id ∷ []))
                (keep (probed s.circuits) ids)
            ∙ ap (λ l. s.to_probe ++ l) (keep-cons (probed s.circuits) id ids),
        skips
            ∙ ap (λ l. s1.skipped ++ l) (keep_ext _ _ ids same)
            ∙ ap (λ l. l ++ keep (skipped s.circuits) ids) skip
            ∙ append_assoc s.skipped (keep (skipped s.circuits) (id ∷ []))
                (keep (skipped s.circuits) ids)
            ∙ ap (λ l. s.skipped ++ l) (keep-cons (skipped s.circuits) id ids),
      )

module _ {O : Type 0} (config : CircuitConfig) (later : ℕ) where
  -- A circuit behind its probe.
  abbrev pub judged : ProbeResult O → CircuitState → CircuitState
  judged r c = if is_unreachable r.health then record_failure c config later else record_success c

  record_one-circuits :
      (s : Swept O) (id j : ℕ) (r : ProbeResult O)
      → circuit_of (record_one config later s id r).circuits j
        ≡ (if id == j then judged r (circuit_of s.circuits id) else circuit_of s.circuits j)
  unfolding record_one
  record_one-circuits s id j r = elim (Bool-cases (is_unreachable r.health)) [
    | inl e ↦
        rw e (
          circuit_of-insert id j (record_failure (circuit_of s.circuits id) config later)
            s.circuits)
    | inr e ↦ rw e (circuit_of-insert id j (record_success (circuit_of s.circuits id)) s.circuits)
  ]

  record_one-health :
      (s : Swept O) (id j : ℕ) (r : ProbeResult O)
      → lookup j (record_one config later s id r).health_cache
        ≡ (if id == j then some r.health else lookup j s.health_cache)
  unfolding record_one
  record_one-health s id j r = elim (Bool-cases (is_unreachable r.health)) [
    | inl e ↦ rw e (lookup-insert id j r.health s.health_cache)
    | inr e ↦ rw e (lookup-insert id j r.health s.health_cache)
  ]

  module _ (results : ℕ → ProbeResult O) where
    record_loop-circuits :
        (s : Swept O) (ids : List ℕ) (j : ℕ)
        → IsNodup ids
        → circuit_of (record_loop config later results s ids).circuits j ≡ (
            if contains j ids
            then judged (results j) (circuit_of s.circuits j)
            else circuit_of s.circuits j)
    unfolding record_loop
    record_loop-circuits s [] j d = refl
    record_loop-circuits s (id ∷ ids) j d = ground (
      arith,
      record_loop-circuits (record_one config later s id (results id)) ids j d.1,
      record_one-circuits s id j (results id),
      not_contains id ids d.0,
    )

    record_loop-health :
        (s : Swept O) (ids : List ℕ) (j : ℕ)
        → lookup j (record_loop config later results s ids).health_cache
          ≡ (if contains j ids then some (results j).health else lookup j s.health_cache)
    unfolding record_loop
    record_loop-health s [] j = refl
    record_loop-health s (id ∷ ids) j = ground (
      arith,
      record_loop-health (record_one config later s id (results id)) ids j,
      record_one-health s id j (results id),
    )

skip_loop_lem :
    (cache : HealthCache) (ids : List ℕ) (j : ℕ)
    → lookup j (skip_loop cache ids) ≡ (if contains j ids then some unreachable else lookup j cache)
unfolding skip_loop
skip_loop_lem cache [] j = refl
skip_loop_lem cache (id ∷ ids) j =
    ground (
      arith,
      skip_loop_lem (insert id unreachable cache) ids j,
      lookup-insert id j unreachable cache,
    )

module _ {O : Type 0} (probe : ℕ → Option (ProbeResult O)) (default_output : O)
    (now later : ℕ) where
  -- What a sweep does to the circuit and to the cached health of a cluster it takes.
  abbrev pub swept_circuit : Monitor → ℕ → CircuitState
  swept_circuit m j =
      let c = maybe_transition_to_half_open (circuit_of m.circuits j) m.config now in
      if should_skip_probe c m.config now
      then c
      else judged m.config later (resolve default_output (probe j)) c

  abbrev pub swept_health : Monitor → ℕ → Health
  swept_health m j =
      let c = maybe_transition_to_half_open (circuit_of m.circuits j) m.config now in
      if should_skip_probe c m.config now
      then unreachable
      else (resolve default_output (probe j)).health

  -- After a sweep over distinct clusters, the circuit and the cached health of a cluster of the list
  -- are those that its own circuit and its own probe determine: an open circuit whose cooldown runs
  -- is left as it is and its cluster is unreachable without a probe; any other is probed, and its
  -- result (unreachable on a timeout) is cached and counted as a failure or a success. A cluster
  -- that is not of the list keeps both.
  pub sweep_pointwise :
      (m : Monitor) (ids : List ℕ) (j : ℕ)
      → IsNodup ids
      → let swept = (check_all_clusters probe default_output now later m ids).0 in
        (circuit_of swept.circuits j
          ≡ (if contains j ids then swept_circuit m j else circuit_of m.circuits j))
        × (get_health swept j
            ≡ (if contains j ids then some (swept_health m j) else get_health m j))
  unfolding check_all_clusters get_health
  sweep_pointwise m [] j d = (refl, refl)
  sweep_pointwise m (id ∷ ids) j d =
      let start : Split = record { circuits = m.circuits; to_probe = []; skipped = [] } in
      let l = id ∷ ids in
      let s = split_loop m.config now start l in
      let results : ℕ → ProbeResult O = λ i. resolve default_output (probe i) in
      let start_loop : Swept O = record {
        health_cache = m.health_cache;
        circuits = s.circuits;
        outputs = [];
      } in
      let (to_probe, skips) = split_loop-lists m.config now start l d in
      let in_probe =
        ap (contains j) to_probe ∙ contains-keep (probed m.config now m.circuits) j l in
      let in_skips = ap (contains j) skips ∙ contains-keep (skipped m.config now m.circuits) j l in
      let nodup =
        subst IsNodup (sym to_probe) (IsNodup-keep (probed m.config now m.circuits) l d) in
      let eased_at = split_loop-circuits m.config now start l j d in
      let circuit_at = record_loop-circuits m.config later results start_loop s.to_probe j nodup in
      let health_at = record_loop-health m.config later results start_loop s.to_probe j in
      let swept = record_loop m.config later results start_loop s.to_probe in
      let skip_at = skip_loop_lem swept.health_cache s.skipped j in
      (
        ground (arith, circuit_at, eased_at, in_probe),
        ground (arith, skip_at, health_at, in_probe, in_skips),
      )
