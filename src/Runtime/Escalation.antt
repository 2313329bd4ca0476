-- ===== src/Runtime/Escalation.antt =====
-- A hint of the user in crates/queryfabric-runtime/src/mode.rs only ever escalates the mode.
use queryfabric.Base.{Option, arith, max, none, some, ℕ, ◌≡◌, ◌≤◌}
use queryfabric.Runtime.Mode.{
  BackendExecutionLimits, EstimatedCost, ExecutionRuntimeMode, QueryTimeoutClass, batch,
  batch_class, export_class, federated, interactive, interactive_class, isolated,
  resolve_runtime_mode, runtime_mode_for_estimate,
}

-- How isolated a mode is; the federated mode is never chosen from an estimate.
abbrev pub rank : ExecutionRuntimeMode → ℕ
rank interactive = 0
rank batch = 1
rank isolated = 2
rank federated = 3

abbrev pub hint_rank : Option QueryTimeoutClass → ℕ
hint_rank none = 0
hint_rank (some interactive_class) = 0
hint_rank (some batch_class) = 1
hint_rank (some export_class) = 2

-- Whatever the hint, the mode that is chosen has the higher of the ranks of the mode of the estimate
-- and of the hint, and of two estimates under one hint the one with more memory has no lower rank.
pub resolve_rank :
    (e f : EstimatedCost) (limits : BackendExecutionLimits) (hint : Option QueryTimeoutClass)
    → e.memory_bytes ≤ f.memory_bytes
    → (rank (resolve_runtime_mode e limits hint)
        ≡ max (rank (runtime_mode_for_estimate e limits)) (hint_rank hint))
      × (rank (resolve_runtime_mode e limits hint) ≤ rank (resolve_runtime_mode f limits hint))
unfolding resolve_runtime_mode
resolve_rank e f limits none le = ground arith
resolve_rank e f limits (some interactive_class) le = ground arith
resolve_rank e f limits (some batch_class) le = ground arith
resolve_rank e f limits (some export_class) le = ground arith
