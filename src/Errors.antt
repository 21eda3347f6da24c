-- ===== src/Errors.antt =====
-- RuntimeError and ProgramBuildError of src/lib.rs. The texts of the messages are constructors.
use samara.Prelude.{ℕ, String, Option, none, some}
use samara.Values.{TypeName, TraceId}
use samara.Ids.{ComponentId, PortId, SubscriptionId}

-- The reasons of RuntimeError::fault in src/controlled_runtime.rs, then those that
-- src/live_runtime.rs adds; `mechanism` is a reason that a Driver or a stop hook gives.
pub data FaultReason : Type 0 where
  duplicate_subscription : SubscriptionId → FaultReason
  plan_output_mismatch undeclared_source uncontrolled_source : FaultReason
  foreign_effect uncontrolled_effect : FaultReason
  absent_send_target : ComponentId → FaultReason
  foreign_notify_port unbound_notify_port : FaultReason
  foreign_request_port unbound_request_port : FaultReason
  reply_without_request reply_type_mismatch : FaultReason
  timer_out_of_range absent_message_target : FaultReason
  missing_source_binding ambiguous_source_binding missing_effect_binding : FaultReason
  source_start_panicked transition_panicked source_mapper_panicked : FaultReason
  effect_mapper_panicked request_continuation_panicked host_continuation_panicked : FaultReason
  notification_protocol_panicked notification_binding_panicked : FaultReason
  request_protocol_panicked request_binding_panicked : FaultReason
  mechanism : String → FaultReason
  driver_panicked timer_panicked task_unsupervised : FaultReason

-- The reasons of RuntimeError::harness, in the same order.
pub data HarnessReason : Type 0 where
  foreign_exact_binding undeclared_exact_binding : HarnessReason
  exact_binding_without_stream : TypeName → TypeName → HarnessReason
  duplicate_exact_binding : HarnessReason
  ambiguous_binding : TypeName → HarnessReason
  effect_without_behavior : TypeName → HarnessReason
  source_without_behavior : TypeName → TypeName → HarnessReason
  foreign_initial_effect : ComponentId → TypeName → HarnessReason
  foreign_initial_target : ComponentId → ComponentId → HarnessReason
  foreign_initial_notify foreign_initial_request : ComponentId → PortId → HarnessReason
  duplicate_initial_subscription : ComponentId → SubscriptionId → HarnessReason
  invalid_initial_plan foreign_initial_source : ComponentId → TypeName → HarnessReason
  inconsistent_initial_source : ComponentId → TypeName → HarnessReason
  foreign_message_target inactive_terminal : HarnessReason
  foreign_stream stream_item_mismatch stream_not_unique : HarnessReason
  close_without_stream close_not_unique : HarnessReason
  foreign_source_target no_active_subscription : HarnessReason
  no_active_source source_stopped descriptor_mismatch : HarnessReason
  no_pending_effect foreign_effect_token effect_not_owned : HarnessReason
  delivery_mismatch advance_out_of_range no_future_work : HarnessReason
  foreign_state_target state_target_mismatch : HarnessReason
  duplicate_effect_binding : TypeName → HarnessReason
  ambiguous_source_binding foreign_live_binding undeclared_live_binding : TypeName → HarnessReason
  live_binding_terminal_mismatch : TypeName → TypeName → HarnessReason
  effect_binding_count : TypeName → ℕ → HarnessReason
  source_binding_count : TypeName → TypeName → ℕ → HarnessReason
  task_not_running ingress_closed task_ended_before_shutdown : HarnessReason
  shutdown_already_started ended_before_reply live_delivery_mismatch : HarnessReason
  foreign_live_handle foreign_live_port_handle owner_task_panicked : HarnessReason

pub data RuntimeError : Type 0 where
  fault : ComponentId → Option TypeName → TraceId → FaultReason → RuntimeError
  harness : HarnessReason → RuntimeError

unfoldable pub component : RuntimeError → Option ComponentId
component (fault c d w r) = some c
component (harness r) = none

unfoldable pub work_occurrence : RuntimeError → Option TraceId
work_occurrence (fault c d w r) = some w
work_occurrence (harness r) = none

pub data ProgramBuildError : Type 0 where
  duplicate_component_id : ComponentId → ProgramBuildError
  duplicate_port foreign_port : TypeName → PortId → ProgramBuildError
  port_binding_count : TypeName → PortId → ℕ → ProgramBuildError
  foreign_provider provider_not_registered : ComponentId → ProgramBuildError

-- Result<A, RuntimeError>, with the panics of `unreachable!` and `expect` as a third outcome.
pub data Result (A : Type 0) : Type 0 where
  ok : A → Result A
  err : RuntimeError → Result A
  panic : Result A
