-- ===== src/Live/Scope.antt =====
-- LiveScope and SourceGate of src/live_runtime.rs: the admission of each kind of event.
use samara.Prelude.{
  ℕ, Bool, true, false, ◌&&◌, Option, none, some, [], ◌∷◌, ◌++◌, ◌==◌, find, update_first,
  if◌then◌else◌,
}
use samara.Values.{ErasedSourceEvent}
use samara.Errors.{HarnessReason, RuntimeError}
use samara.Live.State.{
  Shutdown, SourceGateState, Reason, SourceSinkCore, ScopePhase, LiveEvent, LiveScope,
}

abbrev pub harness_error : HarnessReason → Option RuntimeError
harness_error reason = some (RuntimeError.harness reason)

abbrev pub is_active_gate : SourceGateState → Bool
is_active_gate SourceGateState.active = true
is_active_gate SourceGateState.terminal_accepted = false
is_active_gate SourceGateState.stopped = false

unfoldable pub is_running : ScopePhase → Bool
is_running ScopePhase.running = true
is_running ScopePhase.draining = false
is_running ScopePhase.cancelling = false
is_running ScopePhase.closed = false
is_running (ScopePhase.faulted e) = false

unfoldable pub is_cancelling : ScopePhase → Bool
is_cancelling ScopePhase.running = false
is_cancelling ScopePhase.draining = false
is_cancelling ScopePhase.cancelling = true
is_cancelling ScopePhase.closed = false
is_cancelling (ScopePhase.faulted e) = false

unfoldable pub is_draining : ScopePhase → Bool
is_draining ScopePhase.running = false
is_draining ScopePhase.draining = true
is_draining ScopePhase.cancelling = false
is_draining ScopePhase.closed = false
is_draining (ScopePhase.faulted e) = false

-- `matches!(state.phase, ScopePhase::Running | ScopePhase::Draining)`.
unfoldable pub admits_finite : ScopePhase → Bool
admits_finite ScopePhase.running = true
admits_finite ScopePhase.draining = true
admits_finite ScopePhase.cancelling = false
admits_finite ScopePhase.closed = false
admits_finite (ScopePhase.faulted e) = false

-- The error of a handle whose event is not admitted by a phase other than Running.
unfoldable pub ingress_refusal : ScopePhase → RuntimeError
ingress_refusal ScopePhase.running = RuntimeError.harness HarnessReason.ingress_closed
ingress_refusal ScopePhase.draining = RuntimeError.harness HarnessReason.ingress_closed
ingress_refusal ScopePhase.cancelling = RuntimeError.harness HarnessReason.ingress_closed
ingress_refusal ScopePhase.closed = RuntimeError.harness HarnessReason.ingress_closed
ingress_refusal (ScopePhase.faulted e) = e

-- What `request_ended_error` tells a host whose completion was dropped.
unfoldable pub request_ended_error : ScopePhase → RuntimeError
request_ended_error ScopePhase.running = RuntimeError.harness HarnessReason.ended_before_reply
request_ended_error ScopePhase.draining = RuntimeError.harness HarnessReason.ended_before_reply
request_ended_error ScopePhase.cancelling = RuntimeError.harness HarnessReason.ended_before_reply
request_ended_error ScopePhase.closed = RuntimeError.harness HarnessReason.ended_before_reply
request_ended_error (ScopePhase.faulted e) = e

abbrev pub shutdown_phase : Shutdown → ScopePhase
shutdown_phase Shutdown.drain = ScopePhase.draining
shutdown_phase Shutdown.cancel = ScopePhase.cancelling

-- `fault` of LiveScope, on the phase: a fault or a close that came first stays.
unfoldable pub fault_phase : RuntimeError → ScopePhase → ScopePhase
fault_phase error ScopePhase.running = ScopePhase.faulted error
fault_phase error ScopePhase.draining = ScopePhase.faulted error
fault_phase error ScopePhase.cancelling = ScopePhase.faulted error
fault_phase error ScopePhase.closed = ScopePhase.closed
fault_phase error (ScopePhase.faulted e) = ScopePhase.faulted e

abbrev pub is_sink : ℕ → SourceSinkCore → Bool
is_sink generation sink = sink.stamp.generation == generation

abbrev pub set_state : SourceGateState → SourceSinkCore → SourceSinkCore
set_state state sink = record sink { state = state }

abbrev pub stop_gate : SourceSinkCore → SourceSinkCore
stop_gate sink = record sink { state = SourceGateState.stopped; stop_hook = none }

module _ {V : Type 0} where
  -- `send` of the channel: it fails when the receiver is gone.
  unfoldable pub send_event : LiveEvent V → LiveScope V → Bool × LiveScope V
  send_event event s =
      if s.listening then (true, record s { queue = s.queue ++ event ∷ [] }) else (false, s)

  unfoldable pub accept_ingress : LiveEvent V → LiveScope V → Option RuntimeError × LiveScope V
  unfolding is_running ingress_refusal send_event
  accept_ingress event s =
      if is_running s.phase
      then (let (sent, s') = send_event event s in
          (if sent then none else harness_error HarnessReason.task_not_running, s'))
      else (some (ingress_refusal s.phase), s)

  -- `false` is DriverStopped.
  unfoldable pub accept_source : LiveEvent V → LiveScope V → Bool × LiveScope V
  unfolding is_running send_event
  accept_source event s = if is_running s.phase then send_event event s else (false, s)

  unfoldable pub accept_finite : LiveEvent V → LiveScope V → Bool × LiveScope V
  unfolding admits_finite send_event
  accept_finite event s = if admits_finite s.phase then send_event event s else (false, s)

  -- The match of `begin_shutdown` on the phase.
  unfoldable pub shutdown_from :
      ScopePhase → Shutdown → LiveScope V → Option RuntimeError × LiveScope V
  unfolding send_event
  shutdown_from ScopePhase.running mode s =
      let (sent, s') =
        send_event (LiveEvent.shutdown mode) (record s { phase = shutdown_phase mode }) in
      (if sent then none else harness_error HarnessReason.task_ended_before_shutdown, s')
  shutdown_from ScopePhase.draining mode s =
      (harness_error HarnessReason.shutdown_already_started, s)
  shutdown_from ScopePhase.cancelling mode s =
      (harness_error HarnessReason.shutdown_already_started, s)
  shutdown_from ScopePhase.closed mode s = (harness_error HarnessReason.shutdown_already_started, s)
  shutdown_from (ScopePhase.faulted e) mode s = (some e, s)

  unfoldable pub begin_shutdown : Shutdown → LiveScope V → Option RuntimeError × LiveScope V
  unfolding shutdown_from
  begin_shutdown mode s = shutdown_from s.phase mode s

  unfoldable pub fault : RuntimeError → LiveScope V → LiveScope V
  unfolding fault_phase
  fault error s = record s { phase = fault_phase error s.phase }

  unfoldable pub close : LiveScope V → LiveScope V
  close s = record s { phase = ScopePhase.closed }

  -- The sink of a generation, with its gate.
  abbrev pub sink_of : ℕ → LiveScope V → Option SourceSinkCore
  sink_of generation s = find (is_sink generation) s.sinks

  unfoldable pub update_sink : ℕ → (SourceSinkCore → SourceSinkCore) → LiveScope V → LiveScope V
  update_sink generation f s = record s { sinks = update_first (is_sink generation) f s.sinks }

  -- SourceSinkCore::send with SourceGate::accept.
  unfoldable pub gate_accept :
      SourceSinkCore → ErasedSourceEvent V → Bool → LiveScope V → Bool × LiveScope V
  unfolding accept_source update_sink
  gate_accept sink event terminal s =
      if is_active_gate sink.state
      then (let (sent, s') =
            accept_source (LiveEvent.source_event sink.stamp sink.terminal_type event) s in
          (
            sent,
            if sent && terminal
                then update_sink sink.stamp.generation (set_state SourceGateState.terminal_accepted)
                    s'
                else s',
          ))
      else (false, s)

  -- A call of the sink that was found.
  unfoldable pub send_through :
      Option SourceSinkCore → ErasedSourceEvent V → Bool → LiveScope V → Bool × LiveScope V
  unfolding gate_accept
  send_through none event terminal s = (false, s)
  send_through (some sink) event terminal s = gate_accept sink event terminal s

  -- A Driver's call of its sink.
  unfoldable pub sink_send : ℕ → ErasedSourceEvent V → Bool → LiveScope V → Bool × LiveScope V
  unfolding send_through
  sink_send generation event terminal s = send_through (sink_of generation s) event terminal s

  -- SourceGate::stop, with what the hook returned.
  unfoldable pub gate_stop : ℕ → LiveScope V → Reason × LiveScope V
  unfolding update_sink
  gate_stop generation s = (
    elim (sink_of generation s) [
      | none ↦ none
      | some sink ↦ elim sink.stop_hook [ none ↦ none | some reason ↦ reason ]
    ],
    update_sink generation stop_gate s,
  )
