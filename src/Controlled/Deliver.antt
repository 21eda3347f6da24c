-- ===== src/Controlled/Deliver.antt =====
-- Delivery of one unit of scheduled work: `process_source_event` and `process_message`. Both
-- return the number of transitions committed.
use samara.Prelude.{
  ℕ, none, some, Bool, true, false, not, ◌&&◌, ◌||◌, List, [], ◌∷◌, ◌==◌, any, find, update_first,
  if◌then◌else◌,
}
use samara.Values.{TypeId, TraceId, ErasedSourceEvent, is_terminal}
use samara.Ids.{ComponentId}
use samara.Errors.{FaultReason, HarnessReason, RuntimeError, Result, ok, err}
use samara.Source.{map_event}
use samara.Subscription.{map_erased_source_event}
use samara.Reconciler.{Reconciled, changes, duplicate}
use samara.Kernel.{ComponentKernel, ErasedCommand, transition_erased, reconcile_subscriptions}
use samara.Program.{is_target}
use samara.Controlled.State.{
  TraceEvent, SourceStamp, DeliveryKind, ActiveSource, QueuedMessage, QueuedSourceEvent,
  ScheduledKind, ControlledCore,
}
use samara.Controlled.Trace.{push_trace, push_child, set_fault, fail_with}
use samara.Controlled.Queue.{schedule, schedule_message}
use samara.Controlled.Sources.{
  is_source, source_at, source_stamp_is_current, apply_subscription_changes, and_then,
}
use samara.Controlled.Commands.{interpret_command}

module _ {V : Type 0} where
  abbrev pub drop_stale : SourceStamp → Bool → TraceId → ControlledCore V → ControlledCore V
  drop_stale stamp mapped cause c =
      (push_child cause
        (TraceEvent.stale_source_work_dropped stamp.component stamp.subscription mapped) c).1

  -- The Message for one mapped event; it remembers the Source generation that it comes from.
  unfoldable pub mapped_message :
      ActiveSource V → QueuedSourceEvent V → ErasedSourceEvent V → TraceId → QueuedMessage V
  unfolding map_erased_source_event
  mapped_message source work event mapped_trace = record {
    target = work.stamp.component;
    target_message_type = source.message_type;
    message_type_name = source.message_type_name;
    message = record {
      type_id = source.message_type;
      payload = map_erased_source_event source.subscription event;
    };
    cause = mapped_trace;
    source = some work.stamp;
    delivery = DeliveryKind.message;
  }

  -- The loop over the mapped events.
  unfoldable pub schedule_mapped :
      ActiveSource V
      → QueuedSourceEvent V
      → List (ErasedSourceEvent V)
      → ControlledCore V
      → ControlledCore V
  unfolding push_trace schedule mapped_message
  schedule_mapped source work [] c = c
  schedule_mapped source work (event ∷ rest) c =
      let (mapped_trace, c1) =
        push_child work.cause
          (TraceEvent.source_event_mapped work.stamp.component work.stamp.subscription
            source.subscription.descriptor_type_name event.kind)
          c in
      schedule_mapped source work rest
        (schedule_message (mapped_message source work event mapped_trace) c1.now c1)

  -- The Source runs the event through its Layers, and stops after a terminal one.
  unfoldable pub advance_source :
      ActiveSource V → ErasedSourceEvent V → ActiveSource V × List (ErasedSourceEvent V)
  unfolding map_event is_terminal
  advance_source source event =
      let (plan, events) = map_event source.plan event in
      let terminal = is_terminal event.kind || any (λ e. is_terminal e.kind) events in
      (record source { plan = plan; running = if terminal then false else source.running }, events)

  -- Only the plan and the running flag change.
  unfoldable pub put_source : SourceStamp → ActiveSource V → ControlledCore V → ControlledCore V
  put_source stamp after c = record c {
    sources =
        update_first (is_source stamp.component stamp.subscription)
          (λ old. record old { plan = after.plan; running = after.running }) c.sources;
  }

  -- Whether an event still belongs to the Source found under its identity.
  abbrev pub accepts_event : ActiveSource V → QueuedSourceEvent V → Bool
  accepts_event source work =
      source.stamp.generation == work.stamp.generation
      && (source.running && source.plan.terminal_type == work.terminal_type)

  unfoldable pub process_source_event :
      QueuedSourceEvent V → ControlledCore V → Result ℕ × ControlledCore V
  unfolding push_trace schedule_mapped advance_source put_source
  process_source_event work c = elim (source_at work.stamp.component work.stamp.subscription c) [
    | none ↦ (ok 0, drop_stale work.stamp false work.cause c)
    | some source ↦
        if not (accepts_event source work)
        then (ok 0, drop_stale work.stamp false work.cause c)
        else (let (after, events) = advance_source source work.event in
            (ok 0, schedule_mapped source work events (put_source work.stamp after c)))
  ]

  unfoldable pub put_kernel :
      ComponentId → TypeId → ComponentKernel V → ControlledCore V → ControlledCore V
  put_kernel id message_type k c = record c {
    program = record (c.program) {
      components = update_first (is_target id message_type) (λ _. k) c.program.components;
    };
  }

  -- The trace that a delivery starts from: a timer first records that it fired.
  unfoldable pub delivery_trace :
      DeliveryKind → QueuedMessage V → ControlledCore V → TraceId × ControlledCore V
  unfolding push_trace
  delivery_trace DeliveryKind.message m c = (m.cause, c)
  delivery_trace DeliveryKind.timer m c =
      push_child m.cause (TraceEvent.timer_fired m.target m.message_type_name) c

  -- From the reconciliation on: apply the changes, interpret the Command.
  unfoldable pub apply_reconciled :
      QueuedMessage V
      → ComponentKernel V
      → ErasedCommand V
      → TraceId
      → Reconciled V
      → ControlledCore V
      → Result ℕ × ControlledCore V
  unfolding apply_subscription_changes interpret_command set_fault
  apply_reconciled m k command transition (duplicate id) c =
      fail_with m.target none transition (FaultReason.duplicate_subscription id) c
  apply_reconciled m k command transition (changes list) c =
      and_then
        (apply_subscription_changes m.target k.message_type k.message_type_name list transition c)
        (λ _ c'. and_then (interpret_command command m.target transition c') (λ _ c''. (ok 1, c'')))

  -- From the committed transition on.
  unfoldable pub finish_transition :
      QueuedMessage V
      → ComponentKernel V
      → ErasedCommand V
      → TraceId
      → ControlledCore V
      → Result ℕ × ControlledCore V
  unfolding apply_reconciled put_kernel
  finish_transition m k command transition c =
      let (k', result) = reconcile_subscriptions k in
      apply_reconciled m k command transition result
        (put_kernel m.target m.target_message_type k' c)

  -- From the delivery's trace on.
  unfoldable pub deliver_to :
      QueuedMessage V → TraceId → ControlledCore V → Result ℕ × ControlledCore V
  unfolding set_fault put_kernel finish_transition push_trace
  deliver_to m delivery_cause c =
      elim (find (is_target m.target m.target_message_type) c.program.components) [
        | none ↦ fail_with m.target none delivery_cause FaultReason.absent_message_target c
        | some k ↦ elim ((transition_erased k m.message).1) [
          | none ↦ (err (RuntimeError.harness HarnessReason.delivery_mismatch), c)
          | some command ↦
              let k' = (transition_erased k m.message).0 in
              let (transition, c') =
                push_child delivery_cause (TraceEvent.transition m.target m.message_type_name)
                  (put_kernel m.target m.target_message_type k' c) in
              finish_transition m k' command transition c'
        ]
      ]

  unfoldable pub deliver : QueuedMessage V → ControlledCore V → Result ℕ × ControlledCore V
  unfolding delivery_trace deliver_to
  deliver m c =
      let (delivery_cause, c') = delivery_trace m.delivery m c in deliver_to m delivery_cause c'

  unfoldable pub process_message : QueuedMessage V → ControlledCore V → Result ℕ × ControlledCore V
  unfolding deliver source_stamp_is_current push_trace
  process_message m c = elim (m.source) [
    | none ↦ deliver m c
    | some stamp ↦
        if not (source_stamp_is_current stamp c)
        then (ok 0, drop_stale stamp true m.cause c)
        else deliver m c
  ]

  -- The match of `run_until_idle`.
  unfoldable pub process_work : ScheduledKind V → ControlledCore V → Result ℕ × ControlledCore V
  unfolding process_message process_source_event
  process_work (ScheduledKind.message m) c = process_message m c
  process_work (ScheduledKind.source_event e) c = process_source_event e c
