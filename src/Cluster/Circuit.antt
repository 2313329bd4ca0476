-- ===== src/Cluster/Circuit.antt =====
-- `CircuitState` of crates/queryfabric-cluster/src/health_monitor.rs. An `Instant` is the number of milliseconds
-- since the monitor started; `opened.elapsed()` is `now - opened`, which is 0 where the clock would
-- stand before `opened`. The calls that read the clock take `now`.
use queryfabric.Base.{
  Bool, Option, false, if◌then◌else◌, leb, ltb, none, some, ℕ, ◌%◌, ◌+◌, ◌-◌, ◌^◌,
}

pub record CircuitConfig : Type 0 where
  pub open_threshold : ℕ
  pub cooldown : ℕ

-- `CircuitConfig::default()`
abbrev pub default_config : CircuitConfig
default_config = record { open_threshold = 3; cooldown = 30_000 }

pub data CircuitPhase : Type 0 where
  closed open_phase half_open : CircuitPhase

pub record CircuitState : Type 0 where
  pub phase : CircuitPhase
  pub consecutive_failures : ℕ
  pub opened_at : Option ℕ

abbrev pub new : CircuitState
new = record { phase = closed; consecutive_failures = 0; opened_at = none }

abbrev elapsed_below : Option ℕ → ℕ → ℕ → Bool
elapsed_below (some opened) now cooldown = ltb (now - opened) cooldown
elapsed_below none now cooldown = false

abbrev skips : CircuitPhase → Option ℕ → ℕ → ℕ → Bool
skips closed opened_at now cooldown = false
skips half_open opened_at now cooldown = false
skips open_phase opened_at now cooldown = elapsed_below opened_at now cooldown

unfoldable pub should_skip_probe : CircuitState → CircuitConfig → ℕ → Bool
should_skip_probe c config now = skips c.phase c.opened_at now config.cooldown

abbrev cooled_down : CircuitPhase → Option ℕ → ℕ → ℕ → Bool
cooled_down open_phase (some opened) now cooldown = leb cooldown (now - opened)
cooled_down open_phase none now cooldown = false
cooled_down _ opened_at now cooldown = false

unfoldable pub maybe_transition_to_half_open : CircuitState → CircuitConfig → ℕ → CircuitState
maybe_transition_to_half_open c config now =
    if cooled_down c.phase c.opened_at now config.cooldown
    then record c { phase = half_open }
    else c

unfoldable pub record_success : CircuitState → CircuitState
record_success c = record { phase = closed; consecutive_failures = 0; opened_at = none }

-- `self.consecutive_failures += 1` on a `u32`.
unfoldable pub record_failure : CircuitState → CircuitConfig → ℕ → CircuitState
record_failure c config now =
    let failures = (c.consecutive_failures + 1) % 2 ^ 32 in
    if leb config.open_threshold failures
    then record { phase = open_phase; consecutive_failures = failures; opened_at = some now }
    else record c { consecutive_failures = failures }
