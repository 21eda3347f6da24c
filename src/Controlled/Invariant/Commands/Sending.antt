-- ===== src/Controlled/Invariant/Commands/Sending.antt =====
-- The arms for effects, sends, notifications and timers keep the invariant.
use samara.Prelude.{
  both, find_test, ◌≡◌, true, ◌<◌, ◌==◌, refl, not, any, ◌||◌, none, some, length, if_ind,
  option_ind, arith, All-snoc, Rises-snoc,
}
use samara.Values.{TraceId, Duration, checked_add}
use samara.Command.{EffectCommand, SendCommand, NotifyCommand}
use samara.Program.{is_binding, declares_effect}
use samara.Controlled.State.{TraceCommandKind, ControlledCore}
use samara.Controlled.Commands.{
  Origin, push_effect, interpret_effect, interpret_send, interpret_notify, has_target, binding_at,
  interpret_after, emit_effect, emit_send, emit_notify, emit_after,
}
use samara.Controlled.Invariant.{Inv, Good, IsRequested}
use samara.Controlled.Invariant.Rules.{fail_with-Good, ok-Good}
use samara.Controlled.Invariant.Commands.Steps.{schedule-Good, traced-Good}

module _ {V : Type 0} where
  push_effect-Inv :
      (o : Origin) (cmd : EffectCommand V) (work : TraceId) (c : ControlledCore V)
      → Inv c
      → work < length c.trace
      → Inv (push_effect o cmd work c)
  unfolding push_effect
  push_effect-Inv o cmd work c v p = record {
    causal = v.causal;
    chronological = v.chronological;
    work_caused = v.work_caused;
    effects_requested =
        All-snoc (IsRequested (length c.trace)) c.effects _ v.effects_requested (p, refl);
    tickets = v.tickets;
    effect_ids = Rises-snoc (λ e. e.id) 0 c.effects _ c.next_effect v.effect_ids refl;
    correlations = v.correlations;
    generations = v.generations;
    replies_mapped = v.replies_mapped;
  }

  emit_effect-Good :
      (o : Origin) (cmd : EffectCommand V) (work : TraceId) (c1 : ControlledCore V)
      → Inv c1
      → work < length c1.trace
      → Good c1 (emit_effect o cmd work c1)
  unfolding emit_effect
  emit_effect-Good o cmd work c1 v1 w =
      if_ind (Good c1) (not (declares_effect c1.program cmd.capability cmd.intent_type))
        (λ _. fail_with-Good _ _ _ _ c1 v1 w)
        λ _.
          if_ind (Good c1) (not (any (λ t. t == cmd.intent_type) c1.bindings.effects))
            (λ _. fail_with-Good _ _ _ _ c1 v1 w)
            λ _. ok-Good tt c1 _ (push_effect-Inv o cmd work c1 v1 w) (omega arith)

  pub interpret_effect-Good :
      (o : Origin) (cmd : EffectCommand V) (c : ControlledCore V)
      → Inv c
      → o.cause < length c.trace
      → Good c (interpret_effect o cmd c)
  unfolding interpret_effect
  interpret_effect-Good o cmd c v p =
      traced-Good o TraceCommandKind.effect cmd.intent_type_name none none c (emit_effect o cmd) v p
        (emit_effect-Good o cmd)

  emit_send-Good :
      (o : Origin) (cmd : SendCommand V) (work : TraceId) (c1 : ControlledCore V)
      → Inv c1
      → work < length c1.trace
      → Good c1 (emit_send o cmd work c1)
  unfolding emit_send
  emit_send-Good o cmd work c1 v1 w =
      if_ind (Good c1)
        (not (cmd.target_program == c1.program.program)
          || not (has_target cmd.target cmd.message_type c1))
        (λ _. fail_with-Good _ _ _ _ c1 v1 w) λ _. schedule-Good _ _ c1 v1 w

  pub interpret_send-Good :
      (o : Origin) (cmd : SendCommand V) (c : ControlledCore V)
      → Inv c
      → o.cause < length c.trace
      → Good c (interpret_send o cmd c)
  unfolding interpret_send
  interpret_send-Good o cmd c v p =
      traced-Good o TraceCommandKind.send cmd.message_type_name (some cmd.target) none c
        (emit_send o cmd) v p (emit_send-Good o cmd)

  emit_notify-Good :
      (o : Origin) (cmd : NotifyCommand V) (work : TraceId) (c1 : ControlledCore V)
      → Inv c1
      → work < length c1.trace
      → Good c1 (emit_notify o cmd work c1)
  unfolding emit_notify
  emit_notify-Good o cmd work c1 v1 w =
      if_ind (Good c1) (not (cmd.port_program == c1.program.program))
        (λ _. fail_with-Good _ _ _ _ c1 v1 w)
        λ _.
          option_ind (Good c1) (binding_at cmd.protocol_type cmd.port c1)
            (λ _. fail_with-Good _ _ _ _ c1 v1 w)
            λ b found.
              let test =
                find_test (is_binding cmd.protocol_type cmd.port) c1.program.bindings found in
              let agrees : (b.protocol_type == cmd.protocol_type) ≡ true = (both _ _ test).0 in
              rw agrees (schedule-Good _ _ c1 v1 w)

  pub interpret_notify-Good :
      (o : Origin) (cmd : NotifyCommand V) (c : ControlledCore V)
      → Inv c
      → o.cause < length c.trace
      → Good c (interpret_notify o cmd c)
  unfolding interpret_notify
  interpret_notify-Good o cmd c v p =
      traced-Good o TraceCommandKind.notify cmd.notification_type_name none (some cmd.port) c
        (emit_notify o cmd) v p (emit_notify-Good o cmd)

  emit_after-Good :
      (o : Origin) (delay : Duration) (message : V) (work : TraceId) (c1 : ControlledCore V)
      → Inv c1
      → work < length c1.trace
      → Good c1 (emit_after o delay message work c1)
  unfolding emit_after
  emit_after-Good o delay message work c1 v1 w =
      option_ind (Good c1) (checked_add c1.now delay) (λ _. fail_with-Good _ _ _ _ c1 v1 w)
        λ deadline _. schedule-Good _ _ c1 v1 w

  pub interpret_after-Good :
      (o : Origin) (delay : Duration) (message : V) (c : ControlledCore V)
      → Inv c
      → o.cause < length c.trace
      → Good c (interpret_after o delay message c)
  unfolding interpret_after
  interpret_after-Good o delay message c v p =
      traced-Good o TraceCommandKind.timer o.message_type_name (some o.component) none c
        (emit_after o delay message) v p (emit_after-Good o delay message)
