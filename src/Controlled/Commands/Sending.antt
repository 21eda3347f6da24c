-- ===== src/Controlled/Commands/Sending.antt =====
-- The arms of `interpret_command` for effects, sends, notifications and timers.
use samara.Prelude.{suc, none, some, not, ◌||◌, [], ◌∷◌, ◌++◌, ◌==◌, any, if◌then◌else◌}
use samara.Values.{TraceId, Duration, checked_add}
use samara.Errors.{FaultReason, Result, ok, panic}
use samara.Command.{EffectCommand, SendCommand, NotifyCommand}
use samara.Program.{declares_effect}
use samara.Controlled.State.{TraceCommandKind, DeliveryKind, ControlledCore}
use samara.Controlled.Trace.{set_fault, fail_with, command_trace}
use samara.Controlled.Queue.{schedule, schedule_message}
use samara.Controlled.Commands.Origins.{Origin, has_target, binding_at, provider_message}

module _ {V : Type 0} where
  unfoldable pub push_effect :
      Origin → EffectCommand V → TraceId → ControlledCore V → ControlledCore V
  push_effect o cmd work c = record c {
    next_effect = suc c.next_effect;
    effects =
        c.effects
        ++ record {
          id = c.next_effect;
          component = o.component;
          descriptor_type = cmd.intent_type;
          descriptor_type_name = cmd.intent_type_name;
          descriptor = some (record { type_id = cmd.intent_type; payload = cmd.intent });
          mapper = cmd.mapper;
          request_trace = work;
          message_type = o.message_type;
          message_type_name = o.message_type_name;
        }
          ∷ [];
  }

  -- After the trace record of the Command.
  unfoldable pub emit_effect :
      Origin → EffectCommand V → TraceId → ControlledCore V → Result Unit × ControlledCore V
  unfolding set_fault push_effect
  emit_effect o cmd work c1 =
      if not (declares_effect c1.program cmd.capability cmd.intent_type)
      then fail_with o.component (some cmd.intent_type_name) work FaultReason.foreign_effect c1
      else if not (any (λ t. t == cmd.intent_type) c1.bindings.effects)
      then fail_with o.component (some cmd.intent_type_name) work FaultReason.uncontrolled_effect c1
      else (ok tt, push_effect o cmd work c1)

  unfoldable pub interpret_effect :
      Origin → EffectCommand V → ControlledCore V → Result Unit × ControlledCore V
  unfolding command_trace emit_effect
  interpret_effect o cmd c =
      let (work, c1) =
        command_trace o.cause o.component TraceCommandKind.effect cmd.intent_type_name none none
          c in
      emit_effect o cmd work c1

  -- After the trace record of the Command.
  unfoldable pub emit_send :
      Origin → SendCommand V → TraceId → ControlledCore V → Result Unit × ControlledCore V
  unfolding set_fault schedule
  emit_send o cmd work c1 =
      if not (cmd.target_program == c1.program.program)
        || not (has_target cmd.target cmd.message_type c1)
      then fail_with o.component none work (FaultReason.absent_send_target cmd.target) c1
      else (
        ok tt,
        schedule_message
            (record {
              target = cmd.target;
              target_message_type = cmd.message_type;
              message_type_name = cmd.message_type_name;
              message = record { type_id = cmd.message_type; payload = cmd.message };
              cause = work;
              source = none;
              delivery = DeliveryKind.message;
            })
            c1.now c1,
      )

  unfoldable pub interpret_send :
      Origin → SendCommand V → ControlledCore V → Result Unit × ControlledCore V
  unfolding command_trace emit_send
  interpret_send o cmd c =
      let (work, c1) =
        command_trace o.cause o.component TraceCommandKind.send cmd.message_type_name
          (some cmd.target) none c in
      emit_send o cmd work c1

  -- After the trace record of the Command.
  -- The downcast in the binding's conversion panics at another Protocol.
  unfoldable pub emit_notify :
      Origin → NotifyCommand V → TraceId → ControlledCore V → Result Unit × ControlledCore V
  unfolding set_fault schedule provider_message
  emit_notify o cmd work c1 =
      if not (cmd.port_program == c1.program.program)
      then fail_with o.component none work FaultReason.foreign_notify_port c1
      else elim (binding_at cmd.protocol_type cmd.port c1) [
        | none ↦ fail_with o.component none work FaultReason.unbound_notify_port c1
        | some b ↦
            if not (b.protocol_type == cmd.protocol_type)
            then (panic, c1)
            else (ok tt, schedule_message (provider_message b cmd.message work) c1.now c1)
      ]

  unfoldable pub interpret_notify :
      Origin → NotifyCommand V → ControlledCore V → Result Unit × ControlledCore V
  unfolding command_trace emit_notify
  interpret_notify o cmd c =
      let (work, c1) =
        command_trace o.cause o.component TraceCommandKind.notify cmd.notification_type_name none
          (some cmd.port) c in
      emit_notify o cmd work c1

  -- After the trace record of the Command.
  unfoldable pub emit_after :
      Origin → Duration → V → TraceId → ControlledCore V → Result Unit × ControlledCore V
  unfolding set_fault schedule
  emit_after o delay message work c1 = elim (checked_add c1.now delay) [
    | none ↦ fail_with o.component none work FaultReason.timer_out_of_range c1
    | some deadline ↦ (
      ok tt,
      schedule_message
          (record {
            target = o.component;
            target_message_type = o.message_type;
            message_type_name = o.message_type_name;
            message = record { type_id = o.message_type; payload = message };
            cause = work;
            source = none;
            delivery = DeliveryKind.timer;
          })
          deadline c1,
    )
  ]

  unfoldable pub interpret_after :
      Origin → Duration → V → ControlledCore V → Result Unit × ControlledCore V
  unfolding command_trace emit_after
  interpret_after o delay message c =
      let (work, c1) =
        command_trace o.cause o.component TraceCommandKind.timer o.message_type_name
          (some o.component) none c in
      emit_after o delay message work c1
