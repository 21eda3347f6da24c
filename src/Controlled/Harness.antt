-- ===== src/Controlled/Harness.antt =====
-- What the test harness does to a ControlledCore: inject messages and Source events, claim and
-- complete effects, inspect, cancel.
use samara.Prelude.{
  ℕ, none, some, Bool, not, ◌&&◌, ◌||◌, ◌==◌, find, filter, only, remove_first, update_first,
  is_some, is_none, if◌then◌else◌,
}
use samara.Values.{
  TypeId, ProgramRef, TraceId, CapabilityToken, EffectOutcome, SourceEvent, ErasedSourceEvent,
  typed, same_as,
}
use samara.Ids.{SubscriptionId, id_eq}
use samara.Errors.{HarnessReason, RuntimeError, Result, ok, err, panic}
use samara.Source.{terminal_ended_event}
use samara.Program.{ComponentRef, source_requirement}
use samara.Kernel.{ComponentKernel}
use samara.Controlled.State.{
  TraceEvent, DeliveryKind, ActiveSource, ScheduledKind, PendingEffectEntry, ControlledCore,
  outcome_kind,
}
use samara.Controlled.Trace.{push_trace, push_root}
use samara.Controlled.Queue.{schedule, schedule_message}
use samara.Controlled.Sources.{source_at}
use samara.Controlled.Commands.{has_target}

-- PendingEffect<E>: the token of a claimed effect.
pub record PendingEffect (V : Type 0) : Type 0 where
  pub intent : V
  pub id : ℕ
  pub program : ProgramRef

module _ {V : Type 0} where
  abbrev pub refuse : {A : Type 0} → HarnessReason → ControlledCore V → Result A × ControlledCore V
  refuse reason c = (err (RuntimeError.harness reason), c)

  -- `self.ensure_not_faulted()?` in front of a method's body.
  abbrev pub unless_faulted :
      {A : Type 0}
      → ControlledCore V
      → (ControlledCore V → Result A × ControlledCore V)
      → Result A × ControlledCore V
  unless_faulted c body = elim (c.fault) [ some error ↦ (err error, c) | none ↦ body c ]

  -- A root record of the trace, and the work that it causes, due at once.
  abbrev pub enter :
      TraceEvent → (TraceId → ScheduledKind V) → ControlledCore V → Result Unit × ControlledCore V
  enter event kind c =
      let (cause, c1) = push_root event c in (ok tt, schedule c1.now (kind cause) c1)

  abbrev pub input_message : ComponentRef → V → TraceId → ScheduledKind V
  input_message target message cause = ScheduledKind.message (record {
    target = target.id;
    target_message_type = target.message_type;
    message_type_name = target.message_type_name;
    message = record { type_id = target.message_type; payload = message };
    cause = cause;
    source = none;
    delivery = DeliveryKind.message;
  })

  unfoldable pub send : ComponentRef → V → ControlledCore V → Result Unit × ControlledCore V
  unfolding push_trace schedule
  send target message c = unless_faulted c λ c.
      if not (target.program == c.program.program)
        || not (has_target target.id target.message_type c)
      then refuse HarnessReason.foreign_message_target c
      else enter (TraceEvent.controlled_message_input target.id target.message_type_name)
          (input_message target message) c

  abbrev pub input_event : ActiveSource V → TypeId → ErasedSourceEvent V → TraceId → ScheduledKind V
  input_event source terminal_type event cause =
      ScheduledKind.source_event (record {
        stamp = source.stamp;
        terminal_type = terminal_type;
        event = event;
        cause = cause;
      })

  unfoldable pub enqueue_erased_source_event :
      ActiveSource V
      → TypeId
      → ErasedSourceEvent V
      → ControlledCore V
      → Result Unit × ControlledCore V
  unfolding push_trace schedule
  enqueue_erased_source_event source terminal_type event c =
      if not source.running || not (source.plan.terminal_type == terminal_type)
      then refuse HarnessReason.inactive_terminal c
      else enter
          (TraceEvent.controlled_source_input source.stamp.component source.stamp.subscription
            source.plan.terminal_type_name event.kind)
          (input_event source terminal_type event) c

  abbrev pub is_stream : TypeId → CapabilityToken → ActiveSource V → Bool
  is_stream terminal_type token s =
      s.running && (s.plan.terminal_type == terminal_type && same_as s.plan.capability token)

  -- `stream_type` is the TypeId of StreamDescriptor<S::StreamItem>.
  unfoldable pub emit_stream :
      CapabilityToken → TypeId → V → ControlledCore V → Result Unit × ControlledCore V
  unfolding enqueue_erased_source_event typed
  emit_stream token stream_type item c = unless_faulted c λ c.
      elim (source_requirement c.program token) [
        | none ↦ refuse HarnessReason.foreign_stream c
        | some requirement ↦
            if not (requirement.terminal_type == stream_type)
            then refuse HarnessReason.stream_item_mismatch c
            else elim (only (filter (is_stream stream_type token) c.sources)) [
              | none ↦ refuse HarnessReason.stream_not_unique c
              | some s ↦ enqueue_erased_source_event s stream_type (typed (SourceEvent.item item)) c
            ]
      ]

  unfoldable pub close_stream : CapabilityToken → ControlledCore V → Result Unit × ControlledCore V
  unfolding enqueue_erased_source_event terminal_ended_event
  close_stream token c = unless_faulted c λ c. elim (source_requirement c.program token) [
    | none ↦ refuse HarnessReason.foreign_stream c
    | some requirement ↦
        if is_none requirement.terminal_stream_item_type
        then refuse HarnessReason.close_without_stream c
        else elim (only (filter (is_stream requirement.terminal_type token) c.sources)) [
          | none ↦ refuse HarnessReason.close_not_unique c
          | some s ↦
              enqueue_erased_source_event s s.plan.terminal_type (terminal_ended_event s.plan) c
        ]
  ]

  -- `source_type` is the TypeId of S.
  unfoldable pub emit_source :
      ComponentRef
      → SubscriptionId
      → TypeId
      → SourceEvent V
      → ControlledCore V
      → Result Unit × ControlledCore V
  unfolding enqueue_erased_source_event typed
  emit_source target id source_type event c = unless_faulted c λ c.
      if not (target.program == c.program.program)
      then refuse HarnessReason.foreign_source_target c
      else elim (source_at target.id id c) [
        | none ↦ refuse HarnessReason.no_active_subscription c
        | some s ↦ enqueue_erased_source_event s source_type (typed event) c
      ]

  unfoldable pub source_descriptor :
      ComponentRef → SubscriptionId → TypeId → ControlledCore V → Result V
  source_descriptor target id source_type c =
      if not (target.program == c.program.program)
      then err (RuntimeError.harness HarnessReason.foreign_source_target)
      else elim (source_at target.id id c) [
        | none ↦ err (RuntimeError.harness HarnessReason.no_active_source)
        | some s ↦
            if not s.running
            then err (RuntimeError.harness HarnessReason.source_stopped)
            else if s.subscription.descriptor_type == source_type
            then ok s.subscription.descriptor
            else err (RuntimeError.harness HarnessReason.descriptor_mismatch)
      ]

  abbrev pub is_unclaimed : TypeId → PendingEffectEntry V → Bool
  is_unclaimed descriptor_type e = e.descriptor_type == descriptor_type && is_some e.descriptor

  abbrev pub claimed : PendingEffectEntry V → PendingEffectEntry V
  claimed e = record e { descriptor = none }

  -- The oldest unclaimed effect of one type, its descriptor taken out; `expect` panics without it, and
  -- the downcast at another type.
  unfoldable pub next_effect :
      TypeId → ControlledCore V → Result (PendingEffect V) × ControlledCore V
  next_effect descriptor_type c = unless_faulted c λ c.
      elim (find (is_unclaimed descriptor_type) c.effects) [
        | none ↦ refuse HarnessReason.no_pending_effect c
        | some e ↦ elim (e.descriptor) [
          | none ↦ (panic, c)
          | some intent ↦ if not (intent.type_id == descriptor_type) then (panic, c) else (
            ok (record { intent = intent.payload; id = e.id; program = c.program.program }),
            record c { effects = update_first (is_unclaimed descriptor_type) claimed c.effects },
          )
        ]
      ]

  abbrev pub is_owned : ℕ → TypeId → PendingEffectEntry V → Bool
  is_owned id descriptor_type e = e.id == id && e.descriptor_type == descriptor_type

  -- The Message of a mapped outcome, if the effect maps its outcome. The mapper's downcast panics on
  -- the outcome of another type of effect.
  unfoldable pub schedule_outcome :
      PendingEffectEntry V
      → TypeId
      → EffectOutcome V
      → TraceId
      → ControlledCore V
      → Result Unit × ControlledCore V
  unfolding schedule
  schedule_outcome e descriptor_type outcome cause c = elim (e.mapper) [
    | none ↦ (ok tt, c)
    | some mapper ↦ if not (e.descriptor_type == descriptor_type) then (panic, c) else (
      ok tt,
      schedule_message
          (record {
            target = e.component;
            target_message_type = e.message_type;
            message_type_name = e.message_type_name;
            message = record { type_id = e.message_type; payload = mapper outcome };
            cause = cause;
            source = none;
            delivery = DeliveryKind.message;
          })
          c.now c,
    )
  ]

  unfoldable pub remove_effect : ℕ → TypeId → ControlledCore V → ControlledCore V
  remove_effect id descriptor_type c = record c {
    effects = remove_first (is_owned id descriptor_type) c.effects;
  }

  unfoldable pub complete :
      TypeId → PendingEffect V → EffectOutcome V → ControlledCore V → Result Unit × ControlledCore V
  unfolding push_trace schedule_outcome remove_effect outcome_kind
  complete descriptor_type pending outcome c = unless_faulted c λ c.
      if not (pending.program == c.program.program)
      then refuse HarnessReason.foreign_effect_token c
      else elim (find (is_owned pending.id descriptor_type) c.effects) [
        | none ↦ refuse HarnessReason.effect_not_owned c
        | some e ↦
            let (outcome_trace, c1) =
              push_root
                (TraceEvent.effect_outcome e.request_trace e.component e.descriptor_type_name
                  (outcome_kind outcome))
                (remove_effect pending.id descriptor_type c) in
            schedule_outcome e descriptor_type outcome outcome_trace c1
      ]

  abbrev is_state : ComponentRef → ComponentKernel V → Bool
  is_state target k = id_eq k.id target.id && k.component.component_type == target.component_type

  unfoldable pub state : ComponentRef → ControlledCore V → Result V
  state target c =
      if not (target.program == c.program.program)
      then err (RuntimeError.harness HarnessReason.foreign_state_target)
      else elim (find (is_state target) c.program.components) [
        | none ↦ err (RuntimeError.harness HarnessReason.state_target_mismatch)
        | some k ↦ ok k.model
      ]
