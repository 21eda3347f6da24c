-- ===== src/Controlled/Commands.antt =====
-- `interpret_command` of ControlledCore: the match and the loop.
mod Origins
mod Sending
mod Requests
unfoldable pub use Origins.*
unfoldable pub use Sending.*
unfoldable pub use Requests.*
use samara.Prelude.{
  ℕ, suc, Option, none, some, Bool, not, ◌||◌, List, [], ◌∷◌, ◌++◌, ◌==◌, any, find, remove_first,
  if◌then◌else◌,
}
use samara.Values.{TypeId, TypeName, TraceId, Duration, checked_add}
use samara.Ids.{ComponentId, PortId}
use samara.Errors.{FaultReason, Result, ok, panic}
use samara.Command.{
  Command, EffectCommand, SendCommand, NotifyCommand, RequestCommand, ReplyCommand,
  into_declarations,
}
use samara.Kernel.{ErasedCommand}
use samara.Program.{PortBinding, is_target, is_binding, declares_effect}
use samara.Controlled.State.{
  TraceCommandKind, TraceEvent, DeliveryKind, QueuedMessage, OutstandingRequest, ControlledCore,
}
use samara.Controlled.Trace.{push_trace, push_child, set_fault, fail_with, command_trace}
use samara.Controlled.Queue.{schedule, schedule_message}
use samara.Controlled.Sources.{and_then}

module _ {V : Type 0} where
  -- The match; its first arm is `unreachable!`.
  unfoldable pub interpret_declaration :
      Origin → Command V → ControlledCore V → Result Unit × ControlledCore V
  unfolding interpret_effect interpret_send interpret_notify interpret_request interpret_reply
      interpret_after
  interpret_declaration o Command.nothing c = (panic, c)
  interpret_declaration o (Command.batch commands) c = (panic, c)
  interpret_declaration o (Command.effect cmd) c = interpret_effect o cmd c
  interpret_declaration o (Command.send cmd) c = interpret_send o cmd c
  interpret_declaration o (Command.notify cmd) c = interpret_notify o cmd c
  interpret_declaration o (Command.request cmd) c = interpret_request o cmd c
  interpret_declaration o (Command.reply cmd) c = interpret_reply o cmd c
  interpret_declaration o (Command.after delay message) c = interpret_after o delay message c

  unfoldable pub interpret_each :
      Origin → List (Command V) → ControlledCore V → Result Unit × ControlledCore V
  unfolding interpret_declaration
  interpret_each o [] c = (ok tt, c)
  interpret_each o (declaration ∷ rest) c =
      and_then (interpret_declaration o declaration c) (λ _ c'. interpret_each o rest c')

  unfoldable pub interpret_command :
      ErasedCommand V → ComponentId → TraceId → ControlledCore V → Result Unit × ControlledCore V
  unfolding interpret_each into_declarations
  interpret_command erased component cause c =
      let origin : Origin = record {
        component = component;
        message_type = erased.message_type;
        message_type_name = erased.message_type_name;
        cause = cause;
      } in
      interpret_each origin (into_declarations erased.command) c
