-- ===== src/Cluster/Cooldown.antt =====
-- When the circuit breaker of crates/queryfabric-cluster/src/health_monitor.rs skips a probe, over its
-- life.
use queryfabric.Base.{
  Bool-cases, List, [], arith, inl, inr, leb, length, refl, some, true, ℕ, ◌%◌, ◌+◌, ◌-◌, ◌<◌, ◌^◌,
  ◌↔◌, ◌∷◌, ◌≡◌, ◌≢◌, ◌≤◌,
}
use queryfabric.Cluster.Circuit.{
  CircuitConfig, CircuitPhase, CircuitState, closed, half_open, maybe_transition_to_half_open, new,
  open_phase, record_failure, should_skip_probe,
}
use queryfabric.Cluster.Breaker.{
  Event, IsSound, fail, failures, failures-le, new-IsSound, run, run_lem, step, step-IsSound,
  step-counts, succeed, sweep,
}

-- The time of an event.
abbrev time_of : Event → ℕ
time_of (sweep now) = now
time_of (succeed now) = now
time_of (fail now) = now

-- The times from `start` on are those of a clock that does not run backwards, up to `now`.
abbrev pub Chronological : ℕ → List Event → ℕ → Type 0
Chronological start [] now = start ≤ now
Chronological start (e ∷ es) now = (start ≤ time_of e) × Chronological (time_of e) es now

-- The time of the last failure, if the last one before was at `last`.
abbrev pub last_failure : ℕ → List Event → ℕ
last_failure last [] = last
last_failure last (sweep now ∷ es) = last_failure last es
last_failure last (succeed now ∷ es) = last_failure last es
last_failure last (fail now ∷ es) = last_failure now es

-- What a circuit holds at the time `now`, when its last failure was at `last`.
record IsTimed (config : CircuitConfig) (c : CircuitState) (last now : ℕ) : Type 0 where
  opened : c.phase ≢ closed → c.opened_at ≡ some last
  cooled : c.phase ≡ half_open → config.cooldown ≤ now - last

step-IsTimed :
    (config : CircuitConfig) (c : CircuitState) (e : Event) (last now : ℕ)
    → 0 < config.open_threshold
    → c.consecutive_failures + 1 < 2 ^ 32
    → IsSound config c
    → now ≤ time_of e
    → IsTimed config c last now
    → IsTimed config (step config c e) (last_failure last (e ∷ [])) (time_of e)
unfolding run
step-IsTimed config c (sweep later) last now h fits s le t = ground arith
step-IsTimed config c (succeed later) last now h fits s le t = ground arith
step-IsTimed config c (fail later) last now h fits s le t =
    elim (Bool-cases (leb config.open_threshold ((c.consecutive_failures + 1) % 2 ^ 32))) [
      | inl opens ↦ rw (opens, record_failure) (record { opened = λ n. refl; cooled = λ e. cc })
      | inr stays ↦
          rw (stays, record_failure)
            (record {
              opened = λ n. absurd (ground (arith, s.reached n));
              cooled = λ e. absurd (ground (arith, s.reached));
            })
    ]

last_failure-append :
    (last : ℕ) (e : Event) (es : List Event)
    → last_failure last (e ∷ es) ≡ last_failure (last_failure last (e ∷ [])) es
last_failure-append last (sweep now) es = refl
last_failure-append last (succeed now) es = refl
last_failure-append last (fail now) es = refl

run-IsTimed :
    (config : CircuitConfig) (c : CircuitState) (es : List Event) (last start now : ℕ)
    → 0 < config.open_threshold
    → c.consecutive_failures + length es < 2 ^ 32
    → IsSound config c
    → Chronological start es now
    → IsTimed config c last start
    → IsTimed config (run config c es) (last_failure last es) now
unfolding run
run-IsTimed config c [] last start now h fits s order t = record {
  opened = t.opened;
  cooled = λ e. omega (arith, t.cooled e, order);
}
run-IsTimed config c (e ∷ es) last start now h fits s order t =
    let room : c.consecutive_failures + 1 < 2 ^ 32 = omega arith in
    let counts = step-counts config c e room in
    rw (last_failure-append last e es) (
      run-IsTimed config (step config c e) es (last_failure last (e ∷ [])) (time_of e) now h
        (omega (arith, counts, failures-le c.consecutive_failures e))
        (step-IsSound config c e h room s) order.1
        (step-IsTimed config c e last start h room s order.0 t))

skips_iff :
    (config : CircuitConfig) (c : CircuitState) (p : CircuitPhase) (n last now : ℕ)
    → c.phase ≡ p
    → c.consecutive_failures ≡ n
    → IsSound config c
    → IsTimed config c last now
    → (should_skip_probe (maybe_transition_to_half_open c config now) config now ≡ true)
      ↔ ((config.open_threshold ≤ n) × (now - last < config.cooldown))
unfolding should_skip_probe maybe_transition_to_half_open
skips_iff config c closed n last now at_phase counts s t =
    ground (arith, at_phase, counts, s.below at_phase)
skips_iff config c open_phase n last now at_phase counts s t =
    let open_now : c.phase ≢ closed = (λ e. cc) in
    ground (arith, at_phase, counts, s.reached open_now, t.opened open_now)
skips_iff config c half_open n last now at_phase counts s t =
    let open_now : c.phase ≢ closed = (λ e. cc) in
    ground (arith, at_phase, counts, s.reached open_now, t.opened open_now, t.cooled at_phase)

-- Where the threshold is not 0, a new circuit goes through fewer than 2 ^ 32 events, and the clock
-- does not run backwards: a sweep behind them skips the cluster exactly when the failures behind the
-- last success have reached the threshold and the last failure is less than a cooldown ago.
pub breaker_cooldown :
    (config : CircuitConfig) (es : List Event) (now : ℕ)
    → 0 < config.open_threshold
    → length es < 2 ^ 32
    → Chronological 0 es now
    → let c = run config new es in
      (should_skip_probe (maybe_transition_to_half_open c config now) config now ≡ true)
      ↔ ((config.open_threshold ≤ failures 0 es) × (now - last_failure 0 es < config.cooldown))
breaker_cooldown config es now h fits order =
    let c = run config new es in
    let fresh = new-IsSound config h in
    let (sound, counts) = run_lem config new es h (omega arith) fresh in
    let timed =
      run-IsTimed config new es 0 0 now h (omega arith) fresh order
        (record { opened = λ n. absurd (n refl); cooled = λ e. cc }) in
    skips_iff config c c.phase (failures 0 es) (last_failure 0 es) now refl counts sound timed
