-- ===== src/Controlled/Invariant/Commands.antt =====
-- Command interpretation keeps the invariant, and never meets the arms that it calls unreachable.
mod Steps
mod Sending
mod Requests
pub use Steps.*
pub use Sending.*
pub use Requests.*
use samara.Prelude.{
  ℕ, ◌≡◌, ◌<◌, ◌==◌, refl, true, not, any, ◌||◌, Option, none, some, List, [], ◌∷◌, length, if_ind,
  option_ind, arith, All, All-snoc, Rises-snoc, Rises-remove_first, All-remove_first, All-find,
  find, is_some,
}
use samara.Values.{TypeName, TraceId, Duration, checked_add}
use samara.Ids.{ComponentId}
use samara.Errors.{Result, ok}
use samara.Command.{
  Command, EffectCommand, SendCommand, NotifyCommand, RequestCommand, ReplyCommand, IsDeclaration,
  into_declarations, into_declarations-IsDeclaration,
}
use samara.Kernel.{ErasedCommand}
use samara.Program.{declares_effect}
use samara.Controlled.State.{TraceCommandKind, ScheduledKind, OutstandingRequest, ControlledCore}
use samara.Controlled.Trace.{command_trace}
use samara.Controlled.Queue.{schedule}
use samara.Controlled.Commands.{
  Origin, push_effect, interpret_effect, interpret_send, interpret_notify, push_request, has_target,
  binding_at, is_request, interpret_request, deliver_reply, remove_request, interpret_reply,
  interpret_after, interpret_declaration, interpret_each, interpret_command, emit_effect, emit_send,
  emit_notify, emit_request, emit_reply, emit_after, release_reply,
}
use samara.Controlled.Invariant.{Inv, Good, IsRequested, cause_of}
use samara.Controlled.Invariant.Rules.{
  fail_with-Good, ok-Good, Good-after, push_trace-Good, and_then-Good, schedule-Inv,
}

module _ {V : Type 0} where
  interpret_declaration-Good :
      (o : Origin) (d : Command V) (c : ControlledCore V)
      → IsDeclaration d
      → Inv c
      → o.cause < length c.trace
      → Good c (interpret_declaration o d c)
  unfolding interpret_declaration
  interpret_declaration-Good o Command.nothing c d v p = absurd d
  interpret_declaration-Good o (Command.batch cs) c d v p = absurd d
  interpret_declaration-Good o (Command.effect cmd) c d v p = interpret_effect-Good o cmd c v p
  interpret_declaration-Good o (Command.send cmd) c d v p = interpret_send-Good o cmd c v p
  interpret_declaration-Good o (Command.notify cmd) c d v p = interpret_notify-Good o cmd c v p
  interpret_declaration-Good o (Command.request cmd) c d v p = interpret_request-Good o cmd c v p
  interpret_declaration-Good o (Command.reply cmd) c d v p = interpret_reply-Good o cmd c v p
  interpret_declaration-Good o (Command.after delay m) c d v p =
      interpret_after-Good o delay m c v p

  interpret_each-Good :
      (o : Origin) (ds : List (Command V)) (c : ControlledCore V)
      → All IsDeclaration ds
      → Inv c
      → o.cause < length c.trace
      → Good c (interpret_each o ds c)
  unfolding interpret_each
  interpret_each-Good o [] c a v p = ok-Good tt c c v (omega arith)
  interpret_each-Good o (d ∷ ds) c a v p =
      and_then-Good c (interpret_declaration o d c) (λ _ c'. interpret_each o ds c')
        (interpret_declaration-Good o d c a.0 v p)
        λ _ c' v' g. interpret_each-Good o ds c' a.1 v' (omega arith)

  pub interpret_command-Good :
      (command : ErasedCommand V) (component : ComponentId) (cause : TraceId) (c : ControlledCore V)
      → Inv c
      → cause < length c.trace
      → Good c (interpret_command command component cause c)
  unfolding interpret_command
  interpret_command-Good command component cause c v p =
      interpret_each-Good _ (into_declarations command.command) c
        (into_declarations-IsDeclaration command.command) v p
