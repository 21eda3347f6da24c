-- ===== src/Live/Deliver.antt =====
-- LiveCore: the handling of Messages and Source events, and `initialize`.
use samara.Prelude.{
  none, some, Bool, true, false, not, ◌&&◌, ◌||◌, List, [], ◌∷◌, ◌==◌, map, any, find, update_first,
  if◌then◌else◌,
}
use samara.Values.{TypeId, TypeName, TraceId, ErasedSourceEvent, is_terminal}
use samara.Ids.{ComponentId}
use samara.Errors.{FaultReason, HarnessReason, RuntimeError, Result, ok, err}
use samara.Source.{map_event}
use samara.Subscription.{map_erased_source_event}
use samara.Reconciler.{Reconciled, changes, duplicate}
use samara.Kernel.{ComponentKernel, ErasedCommand, transition_erased, reconcile_subscriptions}
use samara.Program.{is_target}
use samara.Controlled.State.{SourceStamp}
use samara.Live.State.{LiveMessage, LiveSource, LiveCore}
use samara.Live.Scope.{is_cancelling}
use samara.Live.Tasks.{Live, interfere}
use samara.Live.Sources.{
  then_live, fault_with, with_core, next_work, is_live_source, live_source_at,
  live_stamp_is_current, stop_mechanism, stop_result,
}
use samara.Live.Changes.{observe_drain_cutoff, change_all}
use samara.Live.Commands.{offer, interpret_live}

module _ {V : Type 0} where
  -- A write of the first Component that `component_index` finds.
  unfoldable pub put_live_kernel :
      ComponentId → TypeId → ComponentKernel V → LiveCore V → LiveCore V
  put_live_kernel id message_type k c = record c {
    program = record (c.program) {
      components = update_first (is_target id message_type) (λ _. k) c.program.components;
    };
  }

  -- The last event out of a Layer, or the raw one, ends the Source.
  abbrev pub ends_outer : ErasedSourceEvent V → List (ErasedSourceEvent V) → Bool
  ends_outer event outer = is_terminal event.kind || any (λ e. is_terminal e.kind) outer

  abbrev pub put_live_source :
      ComponentId → LiveSource V → (LiveSource V → LiveSource V) → LiveCore V → LiveCore V
  put_live_source component s f c = record c {
    sources = update_first (is_live_source component s.stamp.subscription) f c.sources;
  }

  -- What a delivered terminal does to the entry, its gate and its task.
  unfoldable pub observe_terminal :
      SourceStamp → LiveSource V → TraceId → Live V → Result Unit × Live V
  unfolding stop_mechanism
  observe_terminal stamp s work l =
      let l1 =
        with_core
          (put_live_source stamp.component s
            (λ old. record old { terminal_observed = true; running = false }))
          l in
      if s.drain_retained
      then (ok tt, l1)
      else (let (stopped, l2) = stop_mechanism s l1 in stop_result stopped s work l2)

  abbrev pub stamped_message : SourceStamp → TypeId → TypeName → V → LiveMessage V
  stamped_message stamp message_type message_type_name payload = record {
    target = stamp.component;
    target_message_type = message_type;
    message_type_name = message_type_name;
    message = record { type_id = message_type; payload = payload };
    source = some stamp;
  }

  -- The loop over the mapped events.
  unfoldable pub offer_each : SourceStamp → TypeId → TypeName → List V → Live V → Live V
  unfolding offer
  offer_each stamp mt mn [] l = l
  offer_each stamp mt mn (payload ∷ rest) l =
      offer_each stamp mt mn rest (offer (stamped_message stamp mt mn payload) l).1

  -- Whether an event of `stamp` is for the entry that `source_index` found.
  unfoldable pub takes_event : SourceStamp → TypeId → LiveSource V → Bool
  takes_event stamp terminal_type s =
      s.stamp.generation == stamp.generation
      && (not s.terminal_observed
          && ((s.running || s.drain_retained) && s.plan.terminal_type == terminal_type))

module _ {V : Type 0} (unwinds : V → Bool) where
  -- Past the guards of `process_source_event`.
  unfoldable pub map_live_event :
      SourceStamp → LiveSource V → ErasedSourceEvent V → TraceId → Live V → Result Unit × Live V
  unfolding map_event map_erased_source_event observe_terminal offer_each is_terminal
  map_live_event stamp s event work l =
      let (plan, outer) = map_event s.plan event in
      let mapped = map (map_erased_source_event s.subscription) outer in
      if any unwinds mapped || any (λ layer. unwinds layer.state) plan.layers
      then fault_with stamp.component (some s.plan.terminal_type_name) work
          FaultReason.source_mapper_panicked l
      else (let l1 =
            with_core (put_live_source stamp.component s (λ old. record old { plan = plan })) l in
          then_live
            (if ends_outer event outer then observe_terminal stamp s work l1 else (ok tt, l1))
            (λ _ l2. (ok tt, offer_each stamp s.message_type s.message_type_name mapped l2)))

  unfoldable pub process_live_source :
      SourceStamp → TypeId → ErasedSourceEvent V → Live V → Result Unit × Live V
  unfolding takes_event map_live_event next_work
  process_live_source stamp terminal_type event l =
      elim (live_source_at stamp.component stamp.subscription l.core) [
        | none ↦ (ok tt, l)
        | some s ↦
            if not (takes_event stamp terminal_type s)
            then (ok tt, l)
            else map_live_event stamp s event l.core.next_work (with_core next_work l)
      ]

  -- `finish_transition` from the reconciliation on.
  unfoldable pub project_changes :
      ComponentKernel V → TraceId → ErasedCommand V → Reconciled V → Live V → Result Unit × Live V
  unfolding interfere is_cancelling observe_drain_cutoff change_all interpret_live
  project_changes k work command (duplicate id) l =
      fault_with k.id none work (FaultReason.duplicate_subscription id) l
  project_changes k work command (changes list) l =
      let l1 = interfere l in
      if is_cancelling l1.scope.phase
      then (ok tt, l1)
      else then_live (observe_drain_cutoff l1) (λ _ l2.
        then_live (change_all k.id k.message_type k.message_type_name list work l2) (λ _ l3.
          let l4 = interfere l3 in
          if is_cancelling l4.scope.phase
          then (ok tt, l4)
          else interpret_live unwinds command k.id work l4))

  unfoldable pub finish_live_transition :
      ComponentKernel V → TraceId → ErasedCommand V → Live V → Result Unit × Live V
  unfolding interfere is_cancelling observe_drain_cutoff project_changes put_live_kernel
  finish_live_transition k work command l =
      let l1 = interfere l in
      if is_cancelling l1.scope.phase
      then (ok tt, l1)
      else then_live (observe_drain_cutoff l1) (λ _ l2.
        let (k1, result) = reconcile_subscriptions k in
        project_changes k work command result
          (with_core (put_live_kernel k.id k.message_type k1) l2))

  -- The transition of the target found; one that panics commits nothing that is looked at again.
  unfoldable pub commit_live :
      ComponentKernel V → LiveMessage V → TraceId → Live V → Result Unit × Live V
  unfolding put_live_kernel finish_live_transition
  commit_live k message work l =
      let (k1, command) = transition_erased k message.message in
      if unwinds k1.model
      then fault_with message.target none work FaultReason.transition_panicked l
      else elim command [
        | none ↦ (err (RuntimeError.harness HarnessReason.live_delivery_mismatch), l)
        | some c ↦
            finish_live_transition k1 work c (with_core (put_live_kernel k.id k.message_type k1) l)
      ]

  unfoldable pub process_live_message : LiveMessage V → Live V → Result Unit × Live V
  unfolding live_stamp_is_current commit_live next_work
  process_live_message message l =
      if elim message.source [
        | none ↦ false
        | some stamp ↦ not (live_stamp_is_current stamp l.core)
      ]
      then (ok tt, l)
      else elim (find (is_target message.target message.target_message_type)
          l.core.program.components) [
            | none ↦
                fault_with message.target none l.core.next_work FaultReason.absent_message_target
                  (with_core next_work l)
            | some k ↦ commit_live k message l.core.next_work (with_core next_work l)
          ]
