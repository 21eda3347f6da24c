-- ===== src/Live/Commands.antt =====
-- `interpret_command` of LiveCore: the issuance of finite work.
use samara.Prelude.{
  ℕ, suc, Option, none, some, Bool, not, ◌||◌, List, [], ◌∷◌, ◌++◌, ◌==◌, any, find, remove_first,
  if◌then◌else◌,
}
use samara.Values.{TypeId, TypeName, TraceId, ErasedValue}
use samara.Ids.{ComponentId, PortId}
use samara.Errors.{FaultReason, Result, ok, panic}
use samara.Command.{
  Command, EffectCommand, SendCommand, NotifyCommand, RequestCommand, ReplyCommand,
  into_declarations,
}
use samara.Kernel.{ErasedCommand}
use samara.Program.{PortBinding, is_target, is_binding, declares_effect}
use samara.Controlled.Commands.{Origin}
use samara.Live.State.{
  TaskContext, TaskBody, LiveMessage, LiveEvent, RequestContinuation, LiveRequest, LiveCore,
}
use samara.Live.Scope.{is_cancelling, accept_finite}
use samara.Live.Tasks.{Live, interfere, spawn_owned}
use samara.Live.Bindings.{effect_binding}
use samara.Live.Sources.{then_live, fault_with, with_core, next_work}
use samara.Live.Changes.{observe_drain_cutoff}

module _ {V : Type 0} where
  -- `let _ = self.scope.accept_finite(LiveEvent::Message(message))`, and whether it was admitted.
  unfoldable pub offer : LiveMessage V → Live V → Bool × Live V
  unfolding interfere accept_finite
  offer message l =
      let l1 = interfere l in
      let (sent, scope) = accept_finite (LiveEvent.message message) l1.scope in
      (sent, record l1 { scope = scope })

  -- `Box::new(message)` of a value of one type.
  abbrev pub boxed : TypeId → V → ErasedValue V
  boxed type payload = record { type_id = type; payload = payload }

  -- The target's type and the type of the boxed Message come from different places.
  abbrev pub plain_message : ComponentId → TypeId → TypeName → ErasedValue V → LiveMessage V
  plain_message target message_type message_type_name message = record {
    target = target;
    target_message_type = message_type;
    message_type_name = message_type_name;
    message = message;
    source = none;
  }

  -- `C::Message::from(message)` of a binding, boxed.
  abbrev pub converted : PortBinding V → V → ErasedValue V
  converted b protocol_message = boxed b.provider_message_type (b.convert protocol_message)

  abbrev pub provided : PortBinding V → V → LiveMessage V
  provided b protocol_message =
      plain_message b.provider_id b.provider_message_type b.provider_message_type_name
        (converted b protocol_message)

  -- `binding_index`, with the binding found there.
  abbrev pub live_binding_at : TypeId → PortId → LiveCore V → Option (PortBinding V)
  live_binding_at protocol port c = find (is_binding protocol port) c.program.bindings

  -- The entry and the task of a new effect.
  unfoldable pub issue_effect : Origin → EffectCommand V → TraceId → Live V → Live V
  unfolding spawn_owned
  issue_effect o cmd work l =
      let id = l.core.next_effect in
      let (task, l1) =
        spawn_owned (TaskContext.effect id o.component cmd.intent_type_name work)
          (TaskBody.effect id) l in
      record l1 {
        core = record (l1.core) {
          next_effect = suc id;
          effects =
              l1.core.effects
              ++ record {
                id = id;
                component = o.component;
                descriptor_type_name = cmd.intent_type_name;
                mapper = cmd.mapper;
                message_type = o.message_type;
                message_type_name = o.message_type_name;
                task = task;
              }
                ∷ [];
        };
      }

  unfoldable pub live_effect : Origin → EffectCommand V → TraceId → Live V → Result Unit × Live V
  unfolding issue_effect effect_binding
  live_effect o cmd work l =
      if not (declares_effect l.core.program cmd.capability cmd.intent_type)
      then fault_with o.component (some cmd.intent_type_name) work FaultReason.foreign_effect l
      else elim (effect_binding l.core.bindings cmd.intent_type) [
        | none ↦
            fault_with o.component (some cmd.intent_type_name) work
              FaultReason.missing_effect_binding l
        | some binding ↦ (ok tt, issue_effect o cmd work l)
      ]

  unfoldable pub live_send : Origin → SendCommand V → TraceId → Live V → Result Unit × Live V
  unfolding offer
  live_send o cmd work l =
      if not (cmd.target_program == l.core.program.program)
        || not (any (is_target cmd.target cmd.message_type) l.core.program.components)
      then fault_with o.component none work (FaultReason.absent_send_target cmd.target) l
      else (
        ok tt,
        (offer
            (plain_message cmd.target cmd.message_type cmd.message_type_name
              (boxed cmd.message_type cmd.message))
            l).1,
      )

  unfoldable pub live_notify : Origin → NotifyCommand V → TraceId → Live V → Result Unit × Live V
  unfolding offer
  live_notify o cmd work l =
      if not (cmd.port_program == l.core.program.program)
      then fault_with o.component none work FaultReason.foreign_notify_port l
      else elim (live_binding_at cmd.protocol_type cmd.port l.core) [
        | none ↦ fault_with o.component none work FaultReason.unbound_notify_port l
        | some b ↦ (ok tt, (offer (provided b cmd.message) l).1)
      ]

  -- The correlation taken is `next_request`.
  unfoldable pub push_live_request : TypeId → RequestContinuation V → LiveCore V → LiveCore V
  push_live_request reply_type continuation c = record c {
    next_request = suc c.next_request;
    requests =
        c.requests
        ++ record {
          correlation = c.next_request;
          reply_type = reply_type;
          continuation = continuation;
        }
          ∷ [];
  }

  unfoldable pub live_request : Origin → RequestCommand V → TraceId → Live V → Result Unit × Live V
  unfolding offer push_live_request
  live_request o cmd work l =
      if not (cmd.port_program == l.core.program.program)
      then fault_with o.component none work FaultReason.foreign_request_port l
      else elim (live_binding_at cmd.protocol_type cmd.port l.core) [
        | none ↦ fault_with o.component none work FaultReason.unbound_request_port l
        | some b ↦
            let continuation =
              RequestContinuation.component o.component cmd.mapper o.message_type
                o.message_type_name in
            (
              ok tt,
              (offer (provided b (cmd.into_message l.core.next_request))
                  (with_core (push_live_request cmd.reply_type continuation) l)).1,
            )
      ]

  abbrev pub is_live_request : ℕ → LiveRequest V → Bool
  is_live_request correlation r = r.correlation == correlation

  unfoldable pub issue_timer : Origin → V → TraceId → Live V → Live V
  unfolding spawn_owned
  issue_timer o message work l =
      let id = l.core.next_timer in
      let (task, l1) =
        spawn_owned (TaskContext.timer o.component work)
          (TaskBody.timer id (
            plain_message o.component o.message_type o.message_type_name
              (boxed o.message_type message)))
          l in
      record l1 {
        core = record (l1.core) {
          next_timer = suc id;
          timers = l1.core.timers ++ record { id = id; task = task } ∷ [];
        };
      }

  unfoldable pub drop_request : ℕ → LiveCore V → LiveCore V
  drop_request correlation c = record c {
    requests = remove_first (is_live_request correlation) c.requests;
  }

  -- The completion of a host: its downcast panics at another reply type.
  unfoldable pub complete_host :
      Origin → TraceId → TypeId → ℕ → TypeId → V → Live V → Result Unit × Live V
  complete_host o work expected host reply_type reply l =
      if expected == reply_type
      then (ok tt, with_core (λ c. record c { delivered = c.delivered ++ (host, reply) ∷ [] }) l)
      else fault_with o.component none work FaultReason.host_continuation_panicked l

-- `unwinds` marks the payloads that stand for a panic of the user code that was to compute them.
module _ {V : Type 0} (unwinds : V → Bool) where
  unfoldable pub continue_request :
      Origin → ReplyCommand V → TraceId → RequestContinuation V → Live V → Result Unit × Live V
  unfolding offer complete_host
  continue_request o cmd work (RequestContinuation.component requester mapper mt mn) l =
      if unwinds (mapper cmd.reply)
      then fault_with o.component none work FaultReason.request_continuation_panicked l
      else (ok tt, (offer (plain_message requester mt mn (boxed mt (mapper cmd.reply))) l).1)
  continue_request o cmd work (RequestContinuation.host expected host) l =
      complete_host o work expected host cmd.reply_type cmd.reply l

  unfoldable pub live_reply : Origin → ReplyCommand V → TraceId → Live V → Result Unit × Live V
  unfolding continue_request drop_request
  live_reply o cmd work l = elim (find (is_live_request cmd.correlation) l.core.requests) [
    | none ↦ fault_with o.component none work FaultReason.reply_without_request l
    | some request ↦
        let l1 = with_core (drop_request cmd.correlation) l in
        if not (request.reply_type == cmd.reply_type)
        then fault_with o.component none work FaultReason.reply_type_mismatch l1
        else continue_request o cmd work request.continuation l1
  ]

  -- The match; its first arm is `unreachable!`.
  unfoldable pub live_declaration : Origin → Command V → TraceId → Live V → Result Unit × Live V
  unfolding live_effect live_send live_notify live_request live_reply issue_timer
  live_declaration o Command.nothing work l = (panic, l)
  live_declaration o (Command.batch commands) work l = (panic, l)
  live_declaration o (Command.effect cmd) work l = live_effect o cmd work l
  live_declaration o (Command.send cmd) work l = live_send o cmd work l
  live_declaration o (Command.notify cmd) work l = live_notify o cmd work l
  live_declaration o (Command.request cmd) work l = live_request o cmd work l
  live_declaration o (Command.reply cmd) work l = live_reply o cmd work l
  live_declaration o (Command.after delay message) work l = (ok tt, issue_timer o message work l)

  -- The loop, with its issuance boundary.
  unfoldable pub live_each : Origin → List (Command V) → Live V → Result Unit × Live V
  unfolding live_declaration interfere is_cancelling observe_drain_cutoff next_work
  live_each o [] l = (ok tt, l)
  live_each o (declaration ∷ rest) l =
      let l1 = interfere l in
      if is_cancelling l1.scope.phase
      then (ok tt, l1)
      else then_live (observe_drain_cutoff l1) (λ _ l2.
        then_live (live_declaration o declaration l2.core.next_work (with_core next_work l2))
          (λ _ l3. live_each o rest l3))

  -- `interpret_command`, through `interpret_live`.
  unfoldable pub interpret_live :
      ErasedCommand V → ComponentId → TraceId → Live V → Result Unit × Live V
  unfolding live_each into_declarations
  interpret_live erased component cause l =
      let origin : Origin = record {
        component = component;
        message_type = erased.message_type;
        message_type_name = erased.message_type_name;
        cause = cause;
      } in
      live_each origin (into_declarations erased.command) l
