-- ===== src/Controlled/Trace.antt =====
-- The trace and the fault latch of ControlledCore.
use samara.Prelude.{Option, none, some, [], ◌∷◌, ◌++◌, length}
use samara.Values.{TypeName, TraceId}
use samara.Ids.{ComponentId, PortId}
use samara.Errors.{FaultReason, RuntimeError, Result, ok, err}
use samara.Controlled.State.{TraceCommandKind, TraceEvent, ControlledCore}

-- `descriptor_type.unwrap_or("<none>")`.
abbrev type_or_none : Option TypeName → TypeName
type_or_none none = "<none>"
type_or_none (some name) = name

module _ {V : Type 0} where
  unfoldable pub push_trace :
      Option TraceId → TraceEvent → ControlledCore V → TraceId × ControlledCore V
  push_trace cause event c = (
    length c.trace,
    record c {
      trace =
          c.trace ++ record { id = length c.trace; at = c.now; cause = cause; event = event } ∷ [];
    },
  )

  abbrev pub push_root : TraceEvent → ControlledCore V → TraceId × ControlledCore V
  push_root event c = push_trace none event c

  abbrev pub push_child : TraceId → TraceEvent → ControlledCore V → TraceId × ControlledCore V
  push_child cause event c = push_trace (some cause) event c

  -- The first fault stays.
  unfoldable pub set_fault :
      ComponentId
      → Option TypeName
      → TraceId
      → FaultReason
      → ControlledCore V
      → RuntimeError × ControlledCore V
  unfolding push_trace
  set_fault component descriptor_type work reason c = elim (c.fault) [
    | some error ↦ (error, c)
    | none ↦
        let event = TraceEvent.runtime_fault component work (type_or_none descriptor_type) reason in
        let error = RuntimeError.fault component descriptor_type work reason in
        let c' = (push_child work event c).1 in (error, record c' { fault = some error })
  ]

  -- `return Err(self.set_fault(..))`.
  abbrev pub fail_with :
      {A : Type 0}
      → ComponentId
      → Option TypeName
      → TraceId
      → FaultReason
      → ControlledCore V
      → Result A × ControlledCore V
  fail_with component descriptor_type work reason c =
      let (error, c') = set_fault component descriptor_type work reason c in (err error, c')

  unfoldable pub ensure_not_faulted : ControlledCore V → Result Unit
  ensure_not_faulted c = elim (c.fault) [ some error ↦ err error | none ↦ ok tt ]

  unfoldable pub command_trace :
      TraceId
      → ComponentId
      → TraceCommandKind
      → TypeName
      → Option ComponentId
      → Option PortId
      → ControlledCore V
      → TraceId × ControlledCore V
  unfolding push_trace
  command_trace cause component kind detail_type target_component target_port c =
      push_child cause
        (TraceEvent.command_emitted component kind detail_type target_component target_port) c
