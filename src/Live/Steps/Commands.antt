-- ===== src/Live/Steps/Commands.antt =====
-- The interpretation of Commands is made of actions.
use samara.Prelude.{refl, ℕ, Bool, not, ◌||◌, List, [], ◌∷◌, ◌==◌, any, find, if_ind, option_ind}
use samara.Values.{TypeId, TraceId}
use samara.Ids.{ComponentId}
use samara.Command.{
  Command, EffectCommand, SendCommand, NotifyCommand, RequestCommand, ReplyCommand,
  into_declarations,
}
use samara.Kernel.{ErasedCommand}
use samara.Program.{is_target, declares_effect}
use samara.Controlled.Commands.{Origin}
use samara.Live.State.{RequestContinuation}
use samara.Live.Scope.{is_cancelling}
use samara.Live.Tasks.{Live, interfere}
use samara.Live.Bindings.{effect_binding}
use samara.Live.Sources.{with_core, next_work}
use samara.Live.Changes.{observe_drain_cutoff}
use samara.Live.Commands.{
  live_binding_at, is_live_request, complete_host, live_effect, live_send, live_notify,
  live_request, continue_request, live_reply, live_declaration, live_each, interpret_live,
}
use samara.Live.Steps.{Step, Run, Runs}
use samara.Live.Steps.Rules.{Run-trans, one, interfere-Run, then_live-Runs, offer-Run}
use samara.Live.Steps.Sources.{observe_drain_cutoff-Runs}

module _ {V : Type 0} where
  live_effect-Runs :
      (o : Origin) (cmd : EffectCommand V) (work : TraceId) (l : Live V)
      → Runs l (live_effect o cmd work l)
  unfolding live_effect
  live_effect-Runs o cmd work l =
      if_ind (Runs l) (not (declares_effect l.core.program cmd.capability cmd.intent_type))
        (λ _. Run.stay)
        λ _.
          option_ind (Runs l) (effect_binding l.core.bindings cmd.intent_type) (λ _. Run.stay)
            λ b _. one (Step.issued_effect o cmd work)

  live_send-Runs :
      (o : Origin) (cmd : SendCommand V) (work : TraceId) (l : Live V)
      → Runs l (live_send o cmd work l)
  unfolding live_send
  live_send-Runs o cmd work l =
      if_ind (Runs l)
        (not (cmd.target_program == l.core.program.program)
          || not (any (is_target cmd.target cmd.message_type) l.core.program.components))
        (λ _. Run.stay) λ _. offer-Run _ l refl

  live_notify-Runs :
      (o : Origin) (cmd : NotifyCommand V) (work : TraceId) (l : Live V)
      → Runs l (live_notify o cmd work l)
  unfolding live_notify
  live_notify-Runs o cmd work l =
      if_ind (Runs l) (not (cmd.port_program == l.core.program.program)) (λ _. Run.stay)
        λ _.
          option_ind (Runs l) (live_binding_at cmd.protocol_type cmd.port l.core) (λ _. Run.stay)
            λ b _. offer-Run _ l refl

  live_request-Runs :
      (o : Origin) (cmd : RequestCommand V) (work : TraceId) (l : Live V)
      → Runs l (live_request o cmd work l)
  unfolding live_request
  live_request-Runs o cmd work l =
      if_ind (Runs l) (not (cmd.port_program == l.core.program.program)) (λ _. Run.stay)
        λ _.
          option_ind (Runs l) (live_binding_at cmd.protocol_type cmd.port l.core) (λ _. Run.stay)
            λ b _.
              Run-trans
                (one (
                  Step.requested cmd.reply_type (
                    RequestContinuation.component o.component cmd.mapper o.message_type
                      o.message_type_name)))
                (offer-Run _ _ refl)

  complete_host-Runs :
      (o : Origin) (work : TraceId) (expected : TypeId) (host : ℕ) (reply_type : TypeId) (reply : V)
      (l : Live V)
      → Runs l (complete_host o work expected host reply_type reply l)
  unfolding complete_host
  complete_host-Runs o work expected host reply_type reply l =
      if_ind (Runs l) (expected == reply_type) (λ _. one (Step.delivered host reply))
        (λ _. Run.stay)

module _ {V : Type 0} (unwinds : V → Bool) where
  continue_request-Runs :
      (o : Origin) (cmd : ReplyCommand V) (work : TraceId) (k : RequestContinuation V) (l : Live V)
      → Runs l (continue_request unwinds o cmd work k l)
  unfolding continue_request
  continue_request-Runs o cmd work (RequestContinuation.component requester mapper mt mn) l =
      if_ind (Runs l) (unwinds (mapper cmd.reply)) (λ _. Run.stay) (λ _. offer-Run _ l refl)
  continue_request-Runs o cmd work (RequestContinuation.host expected host) l =
      complete_host-Runs o work expected host cmd.reply_type cmd.reply l

  live_reply-Runs :
      (o : Origin) (cmd : ReplyCommand V) (work : TraceId) (l : Live V)
      → Runs l (live_reply unwinds o cmd work l)
  unfolding live_reply
  live_reply-Runs o cmd work l =
      option_ind (Runs l) (find (is_live_request cmd.correlation) l.core.requests) (λ _. Run.stay)
        λ request _.
          let dropped = one (Step.dropped_request cmd.correlation) in
          if_ind (Runs l) (not (request.reply_type == cmd.reply_type)) (λ _. dropped)
            λ _. Run-trans dropped (continue_request-Runs o cmd work request.continuation _)

  live_declaration-Runs :
      (o : Origin) (command : Command V) (work : TraceId) (l : Live V)
      → Runs l (live_declaration unwinds o command work l)
  unfolding live_declaration
  live_declaration-Runs o Command.nothing work l = Run.stay
  live_declaration-Runs o (Command.batch commands) work l = Run.stay
  live_declaration-Runs o (Command.effect cmd) work l = live_effect-Runs o cmd work l
  live_declaration-Runs o (Command.send cmd) work l = live_send-Runs o cmd work l
  live_declaration-Runs o (Command.notify cmd) work l = live_notify-Runs o cmd work l
  live_declaration-Runs o (Command.request cmd) work l = live_request-Runs o cmd work l
  live_declaration-Runs o (Command.reply cmd) work l = live_reply-Runs o cmd work l
  live_declaration-Runs o (Command.after delay message) work l =
      one (Step.issued_timer o message work)

  live_each-Runs :
      (o : Origin) (list : List (Command V)) (l : Live V) → Runs l (live_each unwinds o list l)
  unfolding live_each
  live_each-Runs o [] l = Run.stay
  live_each-Runs o (declaration ∷ rest) l =
      let l1 = interfere l in
      interfere-Run (
        if_ind (Runs l1) (is_cancelling l1.scope.phase) (λ _. Run.stay)
          λ _. then_live-Runs l1 (observe_drain_cutoff l1) _ (observe_drain_cutoff-Runs l1) λ _ l2.
            Run-trans (one Step.worked) (
              then_live-Runs (with_core next_work l2)
                (live_declaration unwinds o declaration l2.core.next_work (with_core next_work l2))
                _ (live_declaration-Runs o declaration l2.core.next_work _)
                λ _ l3. live_each-Runs o rest l3))

  pub interpret_live-Runs :
      (erased : ErasedCommand V) (component : ComponentId) (cause : TraceId) (l : Live V)
      → Runs l (interpret_live unwinds erased component cause l)
  unfolding interpret_live
  interpret_live-Runs erased component cause l =
      let origin : Origin = record {
        component = component;
        message_type = erased.message_type;
        message_type_name = erased.message_type_name;
        cause = cause;
      } in
      live_each-Runs origin (into_declarations erased.command) l
