-- ===== src/Controlled/Invariant/Deliver.antt =====
-- Delivering one unit of work keeps the invariant.
use samara.Prelude.{
  ℕ, suc, ◌≡◌, ◌<◌, ◌≤◌, refl, not, Option, none, some, List, [], ◌∷◌, length, if_ind, option_ind,
  arith, find, Rises-update_first, All-remove_at, Rises-remove_at,
}
use samara.Values.{TypeId, TraceId, ErasedSourceEvent}
use samara.Ids.{ComponentId}
use samara.Errors.{ok}
use samara.Reconciler.{Reconciled, changes, duplicate}
use samara.Kernel.{ComponentKernel, ErasedCommand, transition_erased, reconcile_subscriptions}
use samara.Program.{is_target}
use samara.Controlled.State.{
  SourceStamp, DeliveryKind, ActiveSource, QueuedMessage, QueuedSourceEvent, ScheduledKind,
  ControlledCore,
}
use samara.Controlled.Sources.{
  is_source, source_at, source_stamp_is_current, apply_subscription_changes,
}
use samara.Controlled.Queue.{schedule_message}
use samara.Controlled.Commands.{interpret_command}
use samara.Controlled.Deliver.{
  drop_stale, mapped_message, schedule_mapped, advance_source, put_source, accepts_event,
  process_source_event, put_kernel, delivery_trace, apply_reconciled, finish_transition, deliver_to,
  deliver, process_message, process_work,
}
use samara.Controlled.Invariant.{Inv, Good, cause_of}
use samara.Controlled.Invariant.Rules.{
  fail_with-Good, ok-Good, Good-after, push_trace-Good, and_then-Good, schedule-Inv, push_trace-Inv,
  push_trace-Extends,
}
use samara.Controlled.Invariant.Sources.{apply_subscription_changes-Good}
use samara.Controlled.Invariant.Commands.{interpret_command-Good}

module _ {V : Type 0} where
  put_source-Inv :
      (stamp : SourceStamp) (after : ActiveSource V) (c : ControlledCore V)
      → Inv c
      → Inv (put_source stamp after c)
  unfolding put_source
  put_source-Inv stamp after c v = record {
    causal = v.causal;
    chronological = v.chronological;
    work_caused = v.work_caused;
    effects_requested = v.effects_requested;
    tickets = v.tickets;
    effect_ids = v.effect_ids;
    correlations = v.correlations;
    generations =
        Rises-update_first (λ s. s.stamp.generation) (is_source stamp.component stamp.subscription)
          _ 0 c.sources c.next_generation (λ x. refl) v.generations;
    replies_mapped = v.replies_mapped;
  }

  put_kernel-Inv :
      (id : ComponentId) (mt : TypeId) (k : ComponentKernel V) (c : ControlledCore V)
      → Inv c
      → Inv (put_kernel id mt k c)
  unfolding put_kernel
  put_kernel-Inv id mt k c v = record {
    causal = v.causal;
    chronological = v.chronological;
    work_caused = v.work_caused;
    effects_requested = v.effects_requested;
    tickets = v.tickets;
    effect_ids = v.effect_ids;
    correlations = v.correlations;
    generations = v.generations;
    replies_mapped = v.replies_mapped;
  }

  drop_stale-Good :
      (stamp : SourceStamp) (mapped : samara.Prelude.Bool) (cause : TraceId) (c : ControlledCore V)
      → Inv c
      → cause < length c.trace
      → Good {A = ℕ} c (ok 0, drop_stale stamp mapped cause c)
  drop_stale-Good stamp mapped cause c v p =
      ok-Good 0 c _ (push_trace-Inv (some cause) _ c v p) (push_trace-Extends (some cause) _ c)

  schedule_mapped-Good :
      (s : ActiveSource V) (work : QueuedSourceEvent V) (events : List (ErasedSourceEvent V))
      (c : ControlledCore V)
      → Inv c
      → work.cause < length c.trace
      → Good {A = ℕ} c (ok 0, schedule_mapped s work events c)
  unfolding schedule_mapped
  schedule_mapped-Good s work [] c v p = ok-Good 0 c c v (omega arith)
  schedule_mapped-Good s work (event ∷ rest) c v p =
      push_trace-Good (some work.cause) _ c
        (λ t c1. (
          ok 0,
          schedule_mapped s work rest (schedule_message (mapped_message s work event t) c1.now c1),
        ))
        v p
        λ t c1 v1 w g.
          Good-after c1 (schedule_message (mapped_message s work event t) c1.now c1) _ (omega arith)
            (schedule_mapped-Good s work rest _ (schedule-Inv _ _ c1 v1 w) (omega arith))

  process_source_event-Good :
      (work : QueuedSourceEvent V) (c : ControlledCore V)
      → Inv c
      → work.cause < length c.trace
      → Good c (process_source_event work c)
  unfolding process_source_event
  process_source_event-Good work c v p =
      option_ind (Good c) (source_at work.stamp.component work.stamp.subscription c)
        (λ _. drop_stale-Good work.stamp _ work.cause c v p)
        λ s _.
          if_ind (Good c) (not (accepts_event s work))
            (λ _. drop_stale-Good work.stamp _ work.cause c v p)
            λ _.
              let after = (advance_source s work.event).0 in
              let events = (advance_source s work.event).1 in
              Good-after c (put_source work.stamp after c) _ (omega arith)
                (schedule_mapped-Good s work events _ (put_source-Inv work.stamp after c v) p)

  apply_reconciled-Good :
      (m : QueuedMessage V) (k : ComponentKernel V) (command : ErasedCommand V)
      (transition : TraceId) (result : Reconciled V) (c : ControlledCore V)
      → Inv c
      → transition < length c.trace
      → Good c (apply_reconciled m k command transition result c)
  unfolding apply_reconciled
  apply_reconciled-Good m k command transition (duplicate id) c v p = fail_with-Good _ _ _ _ c v p
  apply_reconciled-Good m k command transition (changes list) c v p =
      and_then-Good c
        (apply_subscription_changes m.target k.message_type k.message_type_name list transition c) _
        (apply_subscription_changes-Good m.target k.message_type k.message_type_name list transition
          c v p)
        λ _ c1 v1 g.
          and_then-Good c1 (interpret_command command m.target transition c1) _
            (interpret_command-Good command m.target transition c1 v1 (omega arith))
            λ _ c2 v2 g2. ok-Good 1 c2 c2 v2 (omega arith)

  finish_transition-Good :
      (m : QueuedMessage V) (k : ComponentKernel V) (command : ErasedCommand V)
      (transition : TraceId) (c : ControlledCore V)
      → Inv c
      → transition < length c.trace
      → Good c (finish_transition m k command transition c)
  unfolding finish_transition
  finish_transition-Good m k command transition c v p =
      Good-after c (put_kernel m.target m.target_message_type (reconcile_subscriptions k).0 c) _
        (omega arith)
        (apply_reconciled-Good m k command transition (reconcile_subscriptions k).1 _
          (put_kernel-Inv _ _ _ c v) p)

  deliver_to-Good :
      (m : QueuedMessage V) (cause : TraceId) (c : ControlledCore V)
      → Inv c
      → cause < length c.trace
      → Good c (deliver_to m cause c)
  unfolding deliver_to
  deliver_to-Good m cause c v p =
      option_ind (Good c) (find (is_target m.target m.target_message_type) c.program.components)
        (λ _. fail_with-Good _ _ _ _ c v p)
        λ k _.
          option_ind (Good c) (transition_erased k m.message).1
            (λ _. record { inv = v; grows = omega arith; no_panic = λ e. cc })
            λ command _.
              let k' = (transition_erased k m.message).0 in
              let c1 = put_kernel m.target m.target_message_type k' c in
              Good-after c c1 _ (omega arith) (
                push_trace-Good (some cause) _ c1
                  (λ transition c'. finish_transition m k' command transition c')
                  (put_kernel-Inv _ _ _ c v) p
                  λ transition c' v' w g. finish_transition-Good m k' command transition c' v' w)

  deliver_from-Good :
      (kind : DeliveryKind) (m : QueuedMessage V) (c : ControlledCore V)
      → Inv c
      → m.cause < length c.trace
      → Good c (deliver_to m (delivery_trace kind m c).0 (delivery_trace kind m c).1)
  unfolding delivery_trace
  deliver_from-Good DeliveryKind.message m c v p = deliver_to-Good m m.cause c v p
  deliver_from-Good DeliveryKind.timer m c v p =
      push_trace-Good (some m.cause) _ c (deliver_to m) v p
        λ t c1 v1 w g. deliver_to-Good m t c1 v1 w

  deliver-Good :
      (m : QueuedMessage V) (c : ControlledCore V)
      → Inv c
      → m.cause < length c.trace
      → Good c (deliver m c)
  unfolding deliver
  deliver-Good m c v p = deliver_from-Good m.delivery m c v p

  process_message-Good :
      (m : QueuedMessage V) (c : ControlledCore V)
      → Inv c
      → m.cause < length c.trace
      → Good c (process_message m c)
  unfolding process_message
  process_message-Good m c v p =
      option_ind (Good c) m.source (λ _. deliver-Good m c v p)
        λ stamp _.
          if_ind (Good c) (not (source_stamp_is_current stamp c))
            (λ _. drop_stale-Good stamp _ m.cause c v p) λ _. deliver-Good m c v p

  pub process_work-Good :
      (kind : ScheduledKind V) (c : ControlledCore V)
      → Inv c
      → cause_of kind < length c.trace
      → Good c (process_work kind c)
  unfolding process_work
  process_work-Good (ScheduledKind.message m) c v p = process_message-Good m c v p
  process_work-Good (ScheduledKind.source_event e) c v p = process_source_event-Good e c v p
