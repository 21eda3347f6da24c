-- ===== src/Controlled/Commands/Requests.antt =====
-- The arms of `interpret_command` for requests and replies.
use samara.Prelude.{
  ℕ, suc, none, some, Bool, not, [], ◌∷◌, ◌++◌, ◌==◌, find, remove_first, if◌then◌else◌,
}
use samara.Values.{TraceId}
use samara.Errors.{FaultReason, Result, ok, panic}
use samara.Command.{RequestCommand, ReplyCommand}
use samara.Controlled.State.{
  TraceCommandKind, TraceEvent, DeliveryKind, OutstandingRequest, ControlledCore,
}
use samara.Controlled.Trace.{push_trace, push_child, set_fault, fail_with, command_trace}
use samara.Controlled.Queue.{schedule, schedule_message}
use samara.Controlled.Commands.Origins.{Origin, binding_at, provider_message}

module _ {V : Type 0} where
  unfoldable pub push_request : Origin → RequestCommand V → ControlledCore V → ControlledCore V
  push_request o cmd c = record c {
    next_correlation = suc c.next_correlation;
    requests =
        c.requests
        ++ record {
          correlation = c.next_correlation;
          requester = o.component;
          reply_type = cmd.reply_type;
          reply_type_name = cmd.reply_type_name;
          mapper = some cmd.mapper;
          message_type = o.message_type;
          message_type_name = o.message_type_name;
        }
          ∷ [];
  }

  -- After the trace record of the Command.
  unfoldable pub emit_request :
      Origin → RequestCommand V → TraceId → ControlledCore V → Result Unit × ControlledCore V
  unfolding set_fault schedule provider_message push_request
  emit_request o cmd work c1 =
      if not (cmd.port_program == c1.program.program)
      then fail_with o.component none work FaultReason.foreign_request_port c1
      else elim (binding_at cmd.protocol_type cmd.port c1) [
        | none ↦ fail_with o.component none work FaultReason.unbound_request_port c1
        | some b ↦
            let message = provider_message b (cmd.into_message c1.next_correlation) work in
            if not (b.protocol_type == cmd.protocol_type)
            then (panic, c1)
            else (ok tt, schedule_message message c1.now (push_request o cmd c1))
      ]

  unfoldable pub interpret_request :
      Origin → RequestCommand V → ControlledCore V → Result Unit × ControlledCore V
  unfolding command_trace emit_request
  interpret_request o cmd c =
      let (work, c1) =
        command_trace o.cause o.component TraceCommandKind.request cmd.request_type_name none
          (some cmd.port) c in
      emit_request o cmd work c1

  abbrev pub is_request : ℕ → OutstandingRequest V → Bool
  is_request correlation r = r.correlation == correlation

  -- The reply's Message for the requester; `expect` panics on a request without its mapper, and the
  -- downcast in the mapper on a reply of another type.
  unfoldable pub release_reply :
      OutstandingRequest V
      → ReplyCommand V
      → TraceId
      → ControlledCore V
      → Result Unit × ControlledCore V
  unfolding schedule
  release_reply request cmd outcome c = elim (request.mapper) [
    | none ↦ (panic, c)
    | some mapper ↦ if not (request.reply_type == cmd.reply_type) then (panic, c) else (
      ok tt,
      schedule_message
          (record {
            target = request.requester;
            target_message_type = request.message_type;
            message_type_name = request.message_type_name;
            message = record { type_id = request.message_type; payload = mapper cmd.reply };
            cause = outcome;
            source = none;
            delivery = DeliveryKind.message;
          })
          c.now c,
    )
  ]

  unfoldable pub deliver_reply :
      OutstandingRequest V
      → ReplyCommand V
      → TraceId
      → ControlledCore V
      → Result Unit × ControlledCore V
  unfolding push_trace release_reply
  deliver_reply request cmd work c =
      let (outcome, c1) =
        push_child work (TraceEvent.request_outcome request.requester request.reply_type_name) c in
      release_reply request cmd outcome c1

  unfoldable pub remove_request : ℕ → ControlledCore V → ControlledCore V
  remove_request correlation c = record c {
    requests = remove_first (is_request correlation) c.requests;
  }

  -- After the trace record of the Command.
  unfoldable pub emit_reply :
      Origin → ReplyCommand V → TraceId → ControlledCore V → Result Unit × ControlledCore V
  unfolding set_fault deliver_reply remove_request
  emit_reply o cmd work c1 = elim (find (is_request cmd.correlation) c1.requests) [
    | none ↦ fail_with o.component none work FaultReason.reply_without_request c1
    | some request ↦
        let c2 = remove_request cmd.correlation c1 in
        if not (request.reply_type == cmd.reply_type)
        then fail_with o.component none work FaultReason.reply_type_mismatch c2
        else deliver_reply request cmd work c2
  ]

  unfoldable pub interpret_reply :
      Origin → ReplyCommand V → ControlledCore V → Result Unit × ControlledCore V
  unfolding command_trace emit_reply
  interpret_reply o cmd c =
      let (work, c1) =
        command_trace o.cause o.component TraceCommandKind.reply cmd.reply_type_name none none c in
      emit_reply o cmd work c1
