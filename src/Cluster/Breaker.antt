-- ===== src/Cluster/Breaker.antt =====
-- The circuit breaker of crates/queryfabric-cluster/src/health_monitor.rs over its life.
use queryfabric.Base.{
  Bool-cases, List, [], ap, arith, inl, inr, leb, leb→le, length, none, refl, some, sym, ℕ, ◌%◌,
  ◌+◌, ◌<◌, ◌^◌, ◌↔◌, ◌∙◌, ◌∷◌, ◌≡◌, ◌≢◌, ◌≤◌, ◌⊎◌,
}
use queryfabric.Cluster.Circuit.{
  CircuitConfig, CircuitPhase, CircuitState, closed, half_open, maybe_transition_to_half_open, new,
  open_phase, record_failure, record_success,
}

-- What happens to a circuit, at a time.
pub data Event : Type 0 where
  sweep succeed fail : (now : ℕ) → Event

unfoldable pub step : CircuitConfig → CircuitState → Event → CircuitState
step config c (sweep now) = maybe_transition_to_half_open c config now
step config c (succeed now) = record_success c
step config c (fail now) = record_failure c config now

unfoldable pub run : CircuitConfig → CircuitState → List Event → CircuitState
unfolding step maybe_transition_to_half_open record_success record_failure
run config c [] = c
run config c (e ∷ es) = run config (step config c e) es

-- The failures behind the last success, if there were `n` before.
abbrev pub failures : ℕ → List Event → ℕ
failures n [] = n
failures n (sweep now ∷ es) = failures n es
failures n (succeed now ∷ es) = failures 0 es
failures n (fail now ∷ es) = failures (n + 1) es

-- A closed circuit is below its threshold. One that is open or half open has reached it, and
-- remembers when it opened.
pub record IsSound (config : CircuitConfig) (c : CircuitState) : Type 0 where
  pub below :
      c.phase ≡ closed → (c.consecutive_failures < config.open_threshold) × (c.opened_at ≡ none)
  pub reached :
      c.phase ≢ closed
      → (config.open_threshold ≤ c.consecutive_failures)
        × ((opened : ℕ) × (c.opened_at ≡ some opened))

pub new-IsSound : (config : CircuitConfig) → 0 < config.open_threshold → IsSound config new
new-IsSound config h = record { below = λ e. (h, refl); reached = λ n. absurd (n refl) }

phase_cases : (p : CircuitPhase) → (p ≡ closed) ⊎ (p ≢ closed)
phase_cases closed = inl refl
phase_cases open_phase = inr (λ e. cc)
phase_cases half_open = inr (λ e. cc)

pub step-IsSound :
    (config : CircuitConfig) (c : CircuitState) (e : Event)
    → 0 < config.open_threshold
    → c.consecutive_failures + 1 < 2 ^ 32
    → IsSound config c
    → IsSound config (step config c e)
unfolding run
step-IsSound config c (sweep now) h fits s = ground arith
step-IsSound config c (succeed now) h fits s = ground arith
step-IsSound config c (fail now) h fits s =
    elim (Bool-cases (leb config.open_threshold ((c.consecutive_failures + 1) % 2 ^ 32))) [
      | inl opens ↦
          rw (opens, record_failure)
            (record { below = λ e. cc; reached = λ n. (leb→le _ _ opens, (now, refl)) })
      | inr stays ↦
          rw (stays, record_failure)
            (record {
              below = λ e. ground (arith, s.below e);
              reached = λ n. absurd (ground (arith, s.reached n));
            })
    ]

pub step-counts :
    (config : CircuitConfig) (c : CircuitState) (e : Event)
    → c.consecutive_failures + 1 < 2 ^ 32
    → (step config c e).consecutive_failures ≡ failures c.consecutive_failures (e ∷ [])
unfolding run
step-counts config c (sweep now) fits = ground arith
step-counts config c (succeed now) fits = ground arith
step-counts config c (fail now) fits = ground arith

failures-append :
    (n : ℕ) (e : Event) (es : List Event) → failures n (e ∷ es) ≡ failures (failures n (e ∷ [])) es
failures-append n (sweep now) es = refl
failures-append n (succeed now) es = refl
failures-append n (fail now) es = refl

pub failures-le : (n : ℕ) (e : Event) → failures n (e ∷ []) ≤ n + 1
failures-le n (sweep now) = omega arith
failures-le n (succeed now) = omega arith
failures-le n (fail now) = omega arith

pub run_lem :
    (config : CircuitConfig) (c : CircuitState) (es : List Event)
    → 0 < config.open_threshold
    → c.consecutive_failures + length es < 2 ^ 32
    → IsSound config c
    → IsSound config (run config c es)
      × ((run config c es).consecutive_failures ≡ failures c.consecutive_failures es)
unfolding run
run_lem config c [] h fits s = (s, refl)
run_lem config c (e ∷ es) h fits s =
    let f = c.consecutive_failures in
    let room : f + 1 < 2 ^ 32 = omega arith in
    let counts = step-counts config c e room in
    let (sound, total) =
      run_lem config (step config c e) es h (omega (arith, counts, failures-le f e))
        (step-IsSound config c e h room s) in
    (sound, total ∙ ap (λ n. failures n es) counts ∙ sym (failures-append f e es))

-- Where the threshold is not 0, over every sequence of fewer than 2 ^ 32 events on a new circuit: the
-- counter is the number of failures behind the last success, the circuit is closed exactly while that
-- is below the threshold, and a circuit that is not closed remembers when it opened.
pub breaker_closed_iff :
    (config : CircuitConfig) (es : List Event)
    → 0 < config.open_threshold
    → length es < 2 ^ 32
    → let c = run config new es in
      (c.consecutive_failures ≡ failures 0 es)
      × ((c.phase ≡ closed) ↔ (failures 0 es < config.open_threshold))
      × ((c.phase ≡ closed) ⊎ ((opened : ℕ) × (c.opened_at ≡ some opened)))
breaker_closed_iff config es h fits =
    let c = run config new es in
    let (sound, counts) = run_lem config new es h (omega arith) (new-IsSound config h) in
    (
      counts,
      (
        (λ e. omega (arith, counts, sound.below e)),
        (λ below. elim (phase_cases c.phase) [
          | inl e ↦ e
          | inr n ↦ absurd (omega (arith, counts, sound.reached n, below))
        ]),
      ),
      elim (phase_cases c.phase) [ inl e ↦ inl e | inr n ↦ inr (sound.reached n).1 ],
    )
