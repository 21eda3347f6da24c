-- ===== src/Tests/Witnesses.antt =====
-- Runs of the counter Program, and the theorems at its cores.
use samara.Prelude.{
  ◌==◌, ◌↔◌, ℕ, ◌≡◌, ◌≢◌, ◌≤◌, ◌+◌, refl, true, false, none, some, [], ◌∷◌, arith, length, leb, All,
  map, ◌++◌,
}
use samara.Values.{EffectOutcome, SourceEvent, same_as}
use samara.Errors.{FaultReason, RuntimeError, ok, err, panic}
use samara.Command.{ReplyCommand}
use samara.Reconciler.{SubscriptionChange, new_reconciler, reconcile}
use samara.Reconciler.Agreement.{Agrees, reconcile-Agrees}
use samara.Source.Framed.{Decoder, frames}
use samara.Source.Framed.Ending.{Accepts, GoesOn, EndsOnce, framed, framed-EndsOnce}
use samara.Controlled.State.{SourceStamp, ScheduledKind, ControlledCore}
use samara.Controlled.Trace.{set_fault, ensure_not_faulted}
use samara.Controlled.Queue.{pop_next_due}
use samara.Controlled.Queue.Order.{Pops, pop_next_due-Pops}
use samara.Controlled.Sources.{source_stamp_is_current, apply_change}
use samara.Controlled.Commands.{Origin, emit_reply}
use samara.Controlled.Harness.{next_effect}
use samara.Controlled.Drive.{run_until_idle, advance, next_deadline}
use samara.Controlled.Drive.Deadlines.{FindsNext, next_deadline-FindsNext}
use samara.Controlled.Bindings.{is_controlled, validate}
use samara.Controlled.Bindings.Coverage.{IsBound, AreExact, validate-covers}
use samara.Controlled.Invariant.{Inv}
use samara.Controlled.Reach.{
  Reaches, begin, next, Reaches-Inv, call_send, perform, perform-no_panic,
}
use samara.Controlled.Faults.{set_fault-latches}
use samara.Controlled.Effects.{Claimed, complete-next_effect, ClaimsOther, next_effect-once}
use samara.Controlled.Replies.{emit_reply-once}
use samara.Controlled.Idle.{Yields, EndsIdle, EndsAt, run_until_idle-IsIdle, advance-EndsAt}
use samara.Controlled.Staleness.{cancel-stale, replace-stale}
use samara.Program.{declares_effect}
use samara.Program.Builder.Tokens.{AreBelow, SourcesBelow, effect-declares}
use samara.Program.Builder.{effect, build, built, finish}
use samara.Program.Builder.Closed.{IsClosed, build-IsClosed}
use samara.Tests.{
  counter_builder, counter_id, ticks_id, ticks, counter_program, counter_bindings, counter_ref,
  started, poked,
}

started-Reaches : Reaches counter_program counter_bindings started
started-Reaches = begin

poked_run : perform 9 (call_send counter_ref 5) started ≡ some (ok tt, poked)
unfolding perform samara.Controlled.Init.new_core samara.Program.Builder.finish
    samara.Program.Builder.bind_port samara.Program.Builder.component samara.Program.Builder.port
    samara.Program.Builder.source samara.Program.Builder.effect samara.Program.Builder.builder
    samara.Kernel.reconcile_subscriptions reconcile samara.Ids.id_eq
    samara.Source.accepts_output_event_type samara.Source.terminal_plan
    samara.Program.declares_source_plan samara.Program.declares_source samara.Values.belongs_to
    samara.Program.source_requirement samara.Kernel.take_initial_command samara.Kernel.erase_command
    samara.Program.declares_effect samara.Program.effect_requirement samara.Values.same_as
    samara.Values.checked_add samara.Kernel.transition_erased
poked_run = refl

poked-Reaches : Reaches counter_program counter_bindings poked
poked-Reaches = next 9 (call_send counter_ref 5) (ok tt) started-Reaches poked_run

Reaches-Inv_example : Inv poked
Reaches-Inv_example = Reaches-Inv poked-Reaches

perform-no_panic_example :
    (ok tt ≢ panic)
    × (started.now ≤ poked.now)
    × (length started.trace ≤ length poked.trace)
    × (poked.program.program ≡ started.program.program)
perform-no_panic_example =
    perform-no_panic 9 (call_send counter_ref 5) (ok tt) started-Reaches poked_run

pop_next_due-Pops_example : Pops poked (pop_next_due poked)
pop_next_due-Pops_example = pop_next_due-Pops poked

run_until_idle-IsIdle_example : Yields EndsIdle (run_until_idle 3 poked)
run_until_idle-IsIdle_example = run_until_idle-IsIdle 3 poked

advance-EndsAt_example : Yields (EndsAt (poked.now + 5)) (advance 9 5 poked)
advance-EndsAt_example = advance-EndsAt 9 5 poked Reaches-Inv_example

abbrev tick_stamp : SourceStamp
tick_stamp = record { component = counter_id; subscription = ticks_id; generation = 0 }

abbrev orphaned : ControlledCore ℕ
orphaned = record started {
  sources = [];
  scheduled =
      record {
        deadline = 0;
        ticket = 0;
        kind = ScheduledKind.source_event (record {
          stamp = tick_stamp;
          terminal_type = 20;
          event = samara.Values.typed (SourceEvent.item 6);
          cause = 0;
        });
      }
      ∷ [];
}

started_sound : started.fault ≡ none
unfolding perform samara.Controlled.Init.new_core samara.Program.Builder.finish
    samara.Program.Builder.bind_port samara.Program.Builder.component samara.Program.Builder.port
    samara.Program.Builder.source samara.Program.Builder.effect samara.Program.Builder.builder
    samara.Kernel.reconcile_subscriptions reconcile samara.Ids.id_eq
    samara.Source.accepts_output_event_type samara.Source.terminal_plan
    samara.Program.declares_source_plan samara.Program.declares_source samara.Values.belongs_to
    samara.Program.source_requirement samara.Kernel.take_initial_command samara.Kernel.erase_command
    samara.Program.declares_effect samara.Program.effect_requirement samara.Values.same_as
    samara.Values.checked_add samara.Kernel.transition_erased
started_sound = refl

started-Inv : Inv started
started-Inv = Reaches-Inv started-Reaches

complete-next_effect_example : Claimed 10 (EffectOutcome.succeeded 4) (next_effect 10 started)
complete-next_effect_example =
    complete-next_effect 10 (EffectOutcome.succeeded 4) started started-Inv

next_effect-once_example : ClaimsOther 10 (next_effect 10 started)
next_effect-once_example = next_effect-once 10 10 started started-Inv

abbrev counter_origin : Origin
counter_origin = record {
  component = counter_id;
  message_type = 2;
  message_type_name = "Count";
  cause = 0;
}

abbrev answer : ReplyCommand ℕ
answer = record { reply_type = 31; reply_type_name = "Answer"; correlation = 0; reply = 8 }

answer_accepted : (emit_reply counter_origin answer 1 started).0 ≡ ok tt
unfolding perform samara.Controlled.Init.new_core samara.Program.Builder.finish
    samara.Program.Builder.bind_port samara.Program.Builder.component samara.Program.Builder.port
    samara.Program.Builder.source samara.Program.Builder.effect samara.Program.Builder.builder
    samara.Kernel.reconcile_subscriptions reconcile samara.Ids.id_eq
    samara.Source.accepts_output_event_type samara.Source.terminal_plan
    samara.Program.declares_source_plan samara.Program.declares_source samara.Values.belongs_to
    samara.Program.source_requirement samara.Kernel.take_initial_command samara.Kernel.erase_command
    samara.Program.declares_effect samara.Program.effect_requirement samara.Values.same_as
    samara.Values.checked_add samara.Kernel.transition_erased
answer_accepted = refl

emit_reply-once_example :
    (emit_reply counter_origin answer 2 (emit_reply counter_origin answer 1 started).1).0
    ≡ err (RuntimeError.fault counter_id none 2 FaultReason.reply_without_request)
emit_reply-once_example =
    emit_reply-once counter_origin counter_origin answer answer 1 2 started started-Inv
      started_sound answer_accepted refl

set_fault-latches_example :
    ((set_fault counter_id none 0 FaultReason.foreign_effect started).1.fault
      ≡ some (set_fault counter_id none 0 FaultReason.foreign_effect started).0)
    × (set_fault counter_id none 1 FaultReason.timer_out_of_range
          (set_fault counter_id none 0 FaultReason.foreign_effect started).1
        ≡ set_fault counter_id none 0 FaultReason.foreign_effect started)
    × (ensure_not_faulted (set_fault counter_id none 0 FaultReason.foreign_effect started).1
        ≡ err (set_fault counter_id none 0 FaultReason.foreign_effect started).0)
set_fault-latches_example =
    set_fault-latches counter_id counter_id none none 0 1 FaultReason.foreign_effect
      FaultReason.timer_out_of_range started

ticks_current : source_stamp_is_current tick_stamp started ≡ true
unfolding perform samara.Controlled.Init.new_core samara.Program.Builder.finish
    samara.Program.Builder.bind_port samara.Program.Builder.component samara.Program.Builder.port
    samara.Program.Builder.source samara.Program.Builder.effect samara.Program.Builder.builder
    samara.Kernel.reconcile_subscriptions reconcile samara.Ids.id_eq
    samara.Source.accepts_output_event_type samara.Source.terminal_plan
    samara.Program.declares_source_plan samara.Program.declares_source samara.Values.belongs_to
    samara.Program.source_requirement samara.Kernel.take_initial_command samara.Kernel.erase_command
    samara.Program.declares_effect samara.Program.effect_requirement samara.Values.same_as
    samara.Values.checked_add samara.Kernel.transition_erased
ticks_current = refl

cancel-stale_example :
    source_stamp_is_current tick_stamp
      (apply_change counter_id 2 "Count" 0 (SubscriptionChange.cancel ticks_id) started).1
    ≡ false
cancel-stale_example = cancel-stale tick_stamp 2 "Count" 0 started started-Inv ticks_current

replace-stale_example :
    source_stamp_is_current tick_stamp
      (apply_change counter_id 2 "Count" 0
        (SubscriptionChange.replace (ticks ticks_id 5))
        started).1
    ≡ false
replace-stale_example =
    replace-stale tick_stamp (ticks ticks_id 5) 2 "Count" 0 started started-Inv refl ticks_current

reconcile-Agrees_example :
    Agrees
      (new_reconciler counter_id)
      (ticks ticks_id 4 ∷ ticks (8 ∷ []) 4 ∷ [])
      (reconcile (new_reconciler counter_id) (ticks ticks_id 4 ∷ ticks (8 ∷ []) 4 ∷ []))
reconcile-Agrees_example =
    reconcile-Agrees (new_reconciler counter_id) (ticks ticks_id 4 ∷ ticks (8 ∷ []) 4 ∷ [])

counter_bound : validate counter_bindings counter_program ≡ none
unfolding perform samara.Controlled.Init.new_core samara.Program.Builder.finish
    samara.Program.Builder.bind_port samara.Program.Builder.component samara.Program.Builder.port
    samara.Program.Builder.source samara.Program.Builder.effect samara.Program.Builder.builder
    samara.Kernel.reconcile_subscriptions reconcile samara.Ids.id_eq
    samara.Source.accepts_output_event_type samara.Source.terminal_plan
    samara.Program.declares_source_plan samara.Program.declares_source samara.Values.belongs_to
    samara.Program.source_requirement samara.Kernel.take_initial_command samara.Kernel.erase_command
    samara.Program.declares_effect samara.Program.effect_requirement samara.Values.same_as
    samara.Values.checked_add samara.Kernel.transition_erased validate
counter_bound = refl

validate-covers_example :
    All (IsBound counter_bindings) counter_program.effect_requirements
    × All (λ r. is_controlled counter_bindings r ≡ true) counter_program.source_requirements
    × AreExact counter_program counter_bindings counter_bindings.exact_sources
validate-covers_example = validate-covers counter_bindings counter_program counter_bound

next_deadline-FindsNext_example :
    FindsNext
      (λ d. leb d 9)
      0
      orphaned.scheduled
      (next_deadline (λ d. leb d 9) 0 orphaned.scheduled)
next_deadline-FindsNext_example = next_deadline-FindsNext (λ d. leb d 9) 0 orphaned.scheduled

-- A decoder that doubles each chunk, and at the end gives up what it holds.
abbrev doubling : Decoder ℕ
doubling = record {
  start = 0;
  push = λ state chunk. (state + 1, frames (chunk ∷ chunk ∷ []));
  finish = λ state. (state, frames (state ∷ []));
}

chunks-Accepts : Accepts doubling 0 (4 ∷ 6 ∷ [])
chunks-Accepts = (tt, (tt, tt))

framed-EndsOnce_example :
    GoesOn (framed doubling 0 (map SourceEvent.item (4 ∷ 6 ∷ [])))
    × EndsOnce (framed doubling 0 (map SourceEvent.item (4 ∷ 6 ∷ []) ++ SourceEvent.ended ∷ []))
framed-EndsOnce_example =
    framed-EndsOnce doubling 0 (4 ∷ 6 ∷ []) SourceEvent.ended chunks-Accepts tt

build-IsClosed_example :
    (build counter_builder ≡ built counter_program)
    ↔ (IsClosed counter_builder × (finish counter_builder ≡ counter_program))
build-IsClosed_example = build-IsClosed counter_builder counter_program

counter_below : AreBelow counter_builder.next_capability counter_builder.effect_requirements
unfolding samara.Program.Builder.bind_port samara.Program.Builder.component
    samara.Program.Builder.port samara.Program.Builder.source effect samara.Program.Builder.builder
counter_below = (omega arith, tt)

counter_sources : SourcesBelow counter_builder.next_capability counter_builder.source_requirements
unfolding samara.Program.Builder.bind_port samara.Program.Builder.component
    samara.Program.Builder.port samara.Program.Builder.source effect samara.Program.Builder.builder
counter_sources = (omega arith, tt)

effect-declares_example :
    All
      (λ r. same_as r.token (effect 10 "Load" counter_builder).0 ≡ false)
      counter_builder.effect_requirements
    × All
        (λ r. same_as r.token (effect 10 "Load" counter_builder).0 ≡ false)
        counter_builder.source_requirements
    × (declares_effect
          (finish (effect 10 "Load" counter_builder).1)
          (effect 10 "Load" counter_builder).0
          11
        ≡ (10 == 11))
    × AreBelow
        (effect 10 "Load" counter_builder).1.next_capability
        (effect 10 "Load" counter_builder).1.effect_requirements
    × SourcesBelow
        (effect 10 "Load" counter_builder).1.next_capability
        (effect 10 "Load" counter_builder).1.source_requirements
effect-declares_example = effect-declares 10 11 "Load" counter_builder counter_below counter_sources
