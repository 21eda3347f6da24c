-- ===== src/Live/Steps/Deliver.antt =====
-- Delivery and ingress are made of actions.
use samara.Prelude.{
  ℕ, refl, none, some, Bool, true, false, not, ◌||◌, List, [], ◌∷◌, ◌==◌, map, any, find, if_ind,
  option_ind, if◌then◌else◌,
}
use samara.Values.{TypeId, TypeName, TraceId, EffectOutcome, ErasedSourceEvent}
use samara.Ids.{ComponentId}
use samara.Errors.{ok}
use samara.Source.{map_event}
use samara.Subscription.{map_erased_source_event}
use samara.Reconciler.{Reconciled, changes, duplicate}
use samara.Kernel.{ComponentKernel, ErasedCommand, transition_erased, reconcile_subscriptions}
use samara.Program.{is_target, PortBinding}
use samara.Controlled.State.{SourceStamp}
use samara.Live.State.{
  LiveMessage, LiveSource, LiveEffect, PortNotification, PortRequest, LivePortIngress,
  RequestContinuation,
}
use samara.Live.Scope.{is_cancelling}
use samara.Live.Tasks.{Live, interfere}
use samara.Live.Sources.{with_core, is_live_source, live_source_at, live_stamp_is_current}
use samara.Live.Changes.{observe_drain_cutoff, change_all}
use samara.Live.Commands.{offer, live_binding_at}
use samara.Live.Deliver.{
  put_live_kernel, ends_outer, put_live_source, observe_terminal, offer_each, takes_event,
  map_live_event, process_live_source, project_changes, finish_live_transition, commit_live,
  process_live_message,
}
use samara.Live.Ingress.{
  is_live_effect, map_outcome, process_effect, ingress_notification, offer_request, convert_request,
  ingress_request, process_port_ingress,
}
use samara.Live.Steps.{AgreesOnType, Step, Run, Runs}
use samara.Live.Steps.Rules.{Run-trans, one, interfere-Run, then_live-Runs, offer-Run}
use samara.Live.Steps.Sources.{
  observe_drain_cutoff-Runs, change_all-Runs, stop_mechanism-Run, stop_result-Runs,
}
use samara.Live.Steps.Commands.{interpret_live-Runs}

module _ {V : Type 0} where
  put_live_kernel-Step :
      (id : ComponentId) (mt : TypeId) (k : ComponentKernel V) (l : Live V)
      → Step l (with_core (put_live_kernel id mt k) l)
  put_live_kernel-Step id mt k l = Step.committed id mt k

  observe_terminal-Runs :
      (stamp : SourceStamp) (s : LiveSource V) (work : TraceId) (l : Live V)
      → Runs l (observe_terminal stamp s work l)
  unfolding observe_terminal
  observe_terminal-Runs stamp s work l =
      let observed = one (
        Step.updated_source (is_live_source stamp.component s.stamp.subscription)
          (λ old. record old { terminal_observed = true; running = false }) (λ x. refl)) in
      if_ind (Runs l) s.drain_retained (λ _. observed)
        λ _. stop_result-Runs l _ s work _ (Run-trans observed (stop_mechanism-Run s _))

  offer_each-Run :
      (stamp : SourceStamp) (mt : TypeId) (mn : TypeName) (list : List V) (l : Live V)
      → Run l (offer_each stamp mt mn list l)
  unfolding offer_each
  offer_each-Run stamp mt mn [] l = Run.stay
  offer_each-Run stamp mt mn (payload ∷ rest) l =
      Run-trans (offer-Run _ l refl) (offer_each-Run stamp mt mn rest _)

  offer_request-Run :
      (message : LiveMessage V) (l : Live V)
      → AgreesOnType message
      → Run l (offer_request message l)
  unfolding offer_request
  offer_request-Run message l t = Run-trans (offer-Run message l t) (
      if_ind (Run (offer message l).1) (offer message l).0 (λ _. Run.stay)
        (λ _. one Step.popped_request))

module _ {V : Type 0} (unwinds : V → Bool) where
  map_live_event-Runs :
      (stamp : SourceStamp) (s : LiveSource V) (event : ErasedSourceEvent V) (work : TraceId)
      (l : Live V)
      → Runs l (map_live_event unwinds stamp s event work l)
  unfolding map_live_event
  map_live_event-Runs stamp s event work l =
      let (plan, outer) = map_event s.plan event in
      let mapped = map (map_erased_source_event s.subscription) outer in
      let l1 =
        with_core (put_live_source stamp.component s (λ old. record old { plan = plan })) l in
      if_ind (Runs l) (any unwinds mapped || any (λ layer. unwinds layer.state) plan.layers)
        (λ _. Run.stay)
        λ _.
          Run-trans
            (one (
              Step.updated_source (is_live_source stamp.component s.stamp.subscription)
                (λ old. record old { plan = plan }) (λ x. refl)))
            (then_live-Runs l1
              (if ends_outer event outer then observe_terminal stamp s work l1 else (ok tt, l1)) _
              (if_ind (Runs l1) (ends_outer event outer)
                (λ _. observe_terminal-Runs stamp s work l1) (λ _. Run.stay))
              λ _ l2. offer_each-Run stamp s.message_type s.message_type_name mapped l2)

  pub process_live_source-Runs :
      (stamp : SourceStamp) (terminal : TypeId) (event : ErasedSourceEvent V) (l : Live V)
      → Runs l (process_live_source unwinds stamp terminal event l)
  unfolding process_live_source
  process_live_source-Runs stamp terminal event l =
      option_ind (Runs l) (live_source_at stamp.component stamp.subscription l.core) (λ _. Run.stay)
        λ s _.
          if_ind (Runs l) (not (takes_event stamp terminal s)) (λ _. Run.stay)
            λ _. Run-trans (one Step.worked) (map_live_event-Runs stamp s event _ _)

  project_changes-Runs :
      (k : ComponentKernel V) (work : TraceId) (command : ErasedCommand V) (r : Reconciled V)
      (l : Live V)
      → Runs l (project_changes unwinds k work command r l)
  unfolding project_changes
  project_changes-Runs k work command (duplicate id) l = Run.stay
  project_changes-Runs k work command (changes list) l =
      let l1 = interfere l in
      interfere-Run (
        if_ind (Runs l1) (is_cancelling l1.scope.phase) (λ _. Run.stay)
          λ _. then_live-Runs l1 (observe_drain_cutoff l1) _ (observe_drain_cutoff-Runs l1) λ _ l2.
            then_live-Runs l2 (change_all k.id k.message_type k.message_type_name list work l2) _
              (change_all-Runs k.id k.message_type k.message_type_name list work l2)
              λ _ l3. interfere-Run (
                if_ind (Runs (interfere l3)) (is_cancelling (interfere l3).scope.phase)
                  (λ _. Run.stay)
                  λ _. interpret_live-Runs unwinds command k.id work (interfere l3)))

  finish_live_transition-Runs :
      (k : ComponentKernel V) (work : TraceId) (command : ErasedCommand V) (l : Live V)
      → Runs l (finish_live_transition unwinds k work command l)
  unfolding finish_live_transition
  finish_live_transition-Runs k work command l =
      let l1 = interfere l in
      let (k1, result) = reconcile_subscriptions k in
      interfere-Run (
        if_ind (Runs l1) (is_cancelling l1.scope.phase) (λ _. Run.stay)
          λ _. then_live-Runs l1 (observe_drain_cutoff l1) _ (observe_drain_cutoff-Runs l1) λ _ l2.
            Run-trans (one (put_live_kernel-Step k.id k.message_type k1 l2))
              (project_changes-Runs k work command result _))

  commit_live-Runs :
      (k : ComponentKernel V) (message : LiveMessage V) (work : TraceId) (l : Live V)
      → Runs l (commit_live unwinds k message work l)
  unfolding commit_live
  commit_live-Runs k message work l =
      let (k1, command) = transition_erased k message.message in
      if_ind (Runs l) (unwinds k1.model) (λ _. Run.stay)
        λ _.
          option_ind (Runs l) command (λ _. Run.stay)
            λ c _.
              Run-trans (one (put_live_kernel-Step k.id k.message_type k1 l))
                (finish_live_transition-Runs k1 work c _)

  pub process_live_message-Runs :
      (message : LiveMessage V) (l : Live V) → Runs l (process_live_message unwinds message l)
  unfolding process_live_message
  process_live_message-Runs message l =
      if_ind (Runs l)
        (elim (message.source) [
          | none ↦ false
          | some stamp ↦ not (live_stamp_is_current stamp l.core)
        ])
        (λ _. Run.stay)
        λ _.
          option_ind (Runs l)
            (find (is_target message.target message.target_message_type) l.core.program.components)
            (λ _. one Step.worked)
            λ k _. Run-trans (one Step.worked) (commit_live-Runs k message _ _)

  map_outcome-Runs :
      (e : LiveEffect V) (outcome : EffectOutcome V) (l : Live V)
      → Runs l (map_outcome unwinds e outcome l)
  unfolding map_outcome
  map_outcome-Runs e outcome l =
      option_ind (Runs l) e.mapper (λ _. Run.stay)
        λ mapper _.
          if_ind (Runs l) (unwinds (mapper outcome)) (λ _. one Step.worked)
            (λ _. Run-trans (one Step.worked) (offer-Run _ _ refl))

  pub process_effect-Runs :
      (id : ℕ) (outcome : EffectOutcome V) (l : Live V)
      → Runs l (process_effect unwinds id outcome l)
  unfolding process_effect
  process_effect-Runs id outcome l =
      option_ind (Runs l) (find (is_live_effect id) l.core.effects) (λ _. Run.stay)
        λ e _. Run-trans (one (Step.dropped_effect id)) (map_outcome-Runs e outcome _)

  ingress_notification-Runs :
      (n : PortNotification V) (work : TraceId) (l : Live V)
      → Runs l (ingress_notification unwinds n work l)
  unfolding ingress_notification
  ingress_notification-Runs n work l =
      if_ind (Runs l) (not (n.port_program == l.core.program.program)) (λ _. Run.stay)
        λ _.
          option_ind (Runs l) (live_binding_at n.protocol_type n.port l.core) (λ _. Run.stay)
            λ b _.
              if_ind (Runs l) (unwinds n.notification) (λ _. Run.stay)
                λ _.
                  if_ind (Runs l) (unwinds (b.convert n.notification)) (λ _. Run.stay)
                    (λ _. offer-Run _ l refl)

  convert_request-Runs :
      (b : PortBinding V) (message : V) (work : TraceId) (l : Live V)
      → Runs l (convert_request unwinds b message work l)
  unfolding convert_request
  convert_request-Runs b message work l =
      if_ind (Runs l) (unwinds message) (λ _. Run.stay)
        λ _.
          if_ind (Runs l) (unwinds (b.convert message)) (λ _. Run.stay)
            (λ _. offer_request-Run _ l refl)

  ingress_request-Runs :
      (r : PortRequest V) (work : TraceId) (l : Live V) → Runs l (ingress_request unwinds r work l)
  unfolding ingress_request
  ingress_request-Runs r work l =
      if_ind (Runs l) (not (r.port_program == l.core.program.program)) (λ _. Run.stay)
        λ _.
          option_ind (Runs l) (live_binding_at r.protocol_type r.port l.core) (λ _. Run.stay)
            λ b _.
              Run-trans
                (one (Step.requested r.reply_type (RequestContinuation.host r.reply_type r.host)))
                (convert_request-Runs b _ work _)

  pub process_port_ingress-Runs :
      (p : LivePortIngress V) (l : Live V) → Runs l (process_port_ingress unwinds p l)
  unfolding process_port_ingress
  process_port_ingress-Runs (LivePortIngress.notification n) l =
      Run-trans (one Step.worked) (ingress_notification-Runs n _ _)
  process_port_ingress-Runs (LivePortIngress.request r) l =
      Run-trans (one Step.worked) (ingress_request-Runs r _ _)
