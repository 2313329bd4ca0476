-- ===== src/Runtime/Examples.antt =====
-- The modes of two estimates under small limits.
use queryfabric.Base.{arith, max, none, refl, some, ℕ, ◌≡◌, ◌≤◌}
use queryfabric.Runtime.Mode.{
  BackendExecutionLimits, EstimatedCost, batch_class, isolated, resolve_runtime_mode,
  runtime_mode_for_estimate,
}
use queryfabric.Runtime.Escalation.{rank, resolve_rank}

abbrev cost : ℕ → EstimatedCost
cost bytes = record {
  memory_bytes = bytes;
  rows_scanned = 1;
  partitions_touched = 1;
  wallclock_estimate_ms = 1;
}

abbrev small_limits : BackendExecutionLimits
small_limits = record {
  max_rows = none;
  max_bytes_scanned = none;
  max_result_bytes = none;
  max_concurrent_queries = none;
  interactive_byte_limit = 10;
  batch_byte_limit = 20;
}

resolve_test : resolve_runtime_mode (cost 25) small_limits (some batch_class) ≡ isolated
unfolding resolve_runtime_mode runtime_mode_for_estimate
resolve_test = refl

resolve_rank_example :
    (rank (resolve_runtime_mode (cost 5) small_limits (some batch_class))
      ≡ max (rank (runtime_mode_for_estimate (cost 5) small_limits)) 1)
    × (rank (resolve_runtime_mode (cost 5) small_limits (some batch_class))
        ≤ rank (resolve_runtime_mode (cost 15) small_limits (some batch_class)))
resolve_rank_example = resolve_rank (cost 5) (cost 15) small_limits (some batch_class) (omega arith)
