-- ===== src/Runtime/Mode.antt =====
-- crates/queryfabric-runtime/src/mode.rs over the cost and limit types of
-- crates/queryfabric-catalog/src/model.rs. An integer of a fixed width is only compared, so it is a number.
use queryfabric.Base.{Option, if◌then◌else◌, ltb, none, some, ℕ}

pub record EstimatedCost : Type 0 where
  pub memory_bytes : ℕ
  pub rows_scanned : ℕ
  pub partitions_touched : ℕ
  pub wallclock_estimate_ms : ℕ

pub record BackendExecutionLimits : Type 0 where
  pub max_rows : Option ℕ
  pub max_bytes_scanned : Option ℕ
  pub max_result_bytes : Option ℕ
  pub max_concurrent_queries : Option ℕ
  pub interactive_byte_limit : ℕ
  pub batch_byte_limit : ℕ

pub data QueryTimeoutClass : Type 0 where
  interactive_class batch_class export_class : QueryTimeoutClass

pub data ExecutionRuntimeMode : Type 0 where
  interactive batch isolated federated : ExecutionRuntimeMode

unfoldable pub runtime_mode_for_estimate :
    EstimatedCost → BackendExecutionLimits → ExecutionRuntimeMode
runtime_mode_for_estimate estimated limits =
    if ltb limits.batch_byte_limit estimated.memory_bytes
    then isolated
    else if ltb limits.interactive_byte_limit estimated.memory_bytes
    then batch
    else interactive

-- The arm of the batch hint.
abbrev pub at_least_batch : ExecutionRuntimeMode → ExecutionRuntimeMode
at_least_batch interactive = batch
at_least_batch batch = batch
at_least_batch mode = mode

unfoldable pub resolve_runtime_mode :
    EstimatedCost → BackendExecutionLimits → Option QueryTimeoutClass → ExecutionRuntimeMode
unfolding runtime_mode_for_estimate
resolve_runtime_mode estimated limits none = runtime_mode_for_estimate estimated limits
resolve_runtime_mode estimated limits (some interactive_class) =
    runtime_mode_for_estimate estimated limits
resolve_runtime_mode estimated limits (some batch_class) =
    at_least_batch (runtime_mode_for_estimate estimated limits)
resolve_runtime_mode estimated limits (some export_class) = isolated
