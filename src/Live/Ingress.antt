-- ===== src/Live/Ingress.antt =====
-- LiveCore: the outcomes of effects, the ingress of Ports, and `initialize`.
use samara.Prelude.{
  ℕ, Option, none, some, Bool, not, List, [], ◌∷◌, ◌==◌, find, remove_first, get_elem?, set,
  if◌then◌else◌,
}
use mathlib.Core.Option
use samara.Values.{TraceId, EffectOutcome}
use samara.Ids.{ComponentId}
use samara.Errors.{FaultReason, RuntimeError, Result, ok, err, panic}
use samara.Reconciler.{Reconciled, changes, duplicate}
use samara.Kernel.{
  ComponentKernel, ErasedCommand, reconcile_subscriptions, take_initial_command, erase_command,
}
use samara.Program.{PortBinding}
use samara.Controlled.Init.{sort_indexed, indexed}
use samara.Live.State.{
  LiveMessage, PortNotification, PortRequest, LivePortIngress, LiveEffect, RequestContinuation,
  LiveRequest, LiveCore,
}
use samara.Live.Scope.{is_cancelling}
use samara.Live.Tasks.{Live, interfere}
use samara.Live.Sources.{then_live, fault_with, with_core, next_work}
use samara.Live.Changes.{observe_drain_cutoff, change_all}
use samara.Live.Commands.{
  offer, boxed, converted, plain_message, live_binding_at, push_live_request, interpret_live,
}

-- "<external-port>".
abbrev pub external_port : ComponentId
external_port =
    60 ∷ 101 ∷ 120 ∷ 116 ∷ 101 ∷ 114 ∷ 110 ∷ 97 ∷ 108 ∷ 45 ∷ 112 ∷ 111 ∷ 114 ∷ 116 ∷ 62 ∷ []

module _ {V : Type 0} where
  abbrev pub is_live_effect : ℕ → LiveEffect V → Bool
  is_live_effect id e = e.id == id

  unfoldable pub drop_effect : ℕ → LiveCore V → LiveCore V
  drop_effect id c = record c { effects = remove_first (is_live_effect id) c.effects }

  -- `pop`.
  abbrev pub drop_last : List (LiveRequest V) → List (LiveRequest V)
  drop_last [] = []
  drop_last (x ∷ []) = []
  drop_last (x ∷ y ∷ rest) = x ∷ drop_last (y ∷ rest)

  abbrev pub pop_request : LiveCore V → LiveCore V
  pop_request c = record c { requests = drop_last c.requests }

  unfoldable pub set_kernel : ℕ → ComponentKernel V → LiveCore V → LiveCore V
  set_kernel index k c = record c {
    program = record (c.program) { components = set c.program.components index k };
  }

  -- `if !accept_finite(..) { requests.pop(); }`.
  unfoldable pub offer_request : LiveMessage V → Live V → Live V
  unfolding offer
  offer_request message l =
      let (sent, l1) = offer message l in if sent then l1 else with_core pop_request l1

module _ {V : Type 0} (unwinds : V → Bool) where
  -- The entry has left the table.
  unfoldable pub map_outcome : LiveEffect V → EffectOutcome V → Live V → Result Unit × Live V
  unfolding next_work offer
  map_outcome e outcome l = elim (e.mapper) [
    | none ↦ (ok tt, l)
    | some mapper ↦
        if unwinds (mapper outcome)
        then fault_with e.component (some e.descriptor_type_name) l.core.next_work
            FaultReason.effect_mapper_panicked (with_core next_work l)
        else (
          ok tt,
          (offer
              (plain_message e.component e.message_type e.message_type_name
                (boxed e.message_type (mapper outcome)))
              (with_core next_work l)).1,
        )
  ]

  unfoldable pub process_effect : ℕ → EffectOutcome V → Live V → Result Unit × Live V
  unfolding drop_effect map_outcome
  process_effect id outcome l = elim (find (is_live_effect id) l.core.effects) [
    | none ↦ (ok tt, l)
    | some e ↦ map_outcome e outcome (with_core (drop_effect id) l)
  ]

  unfoldable pub ingress_notification : PortNotification V → TraceId → Live V → Result Unit × Live V
  unfolding offer
  ingress_notification n work l =
      if not (n.port_program == l.core.program.program)
      then fault_with external_port none work FaultReason.foreign_notify_port l
      else elim (live_binding_at n.protocol_type n.port l.core) [
        | none ↦ fault_with external_port none work FaultReason.unbound_notify_port l
        | some b ↦
            if unwinds n.notification
            then fault_with b.provider_id none work FaultReason.notification_protocol_panicked l
            else if unwinds (b.convert n.notification)
            then fault_with b.provider_id none work FaultReason.notification_binding_panicked l
            else (
              ok tt,
              (offer
                  (plain_message b.provider_id b.provider_message_type b.provider_message_type_name
                    (converted b n.notification))
                  l).1,
            )
      ]

  -- From the push of the Request on; `message` is the protocol's Message.
  unfoldable pub convert_request : PortBinding V → V → TraceId → Live V → Result Unit × Live V
  unfolding offer_request
  convert_request b message work l =
      if unwinds message
      then fault_with b.provider_id none work FaultReason.request_protocol_panicked l
      else if unwinds (b.convert message)
      then fault_with b.provider_id none work FaultReason.request_binding_panicked l
      else (
        ok tt,
        offer_request
            (plain_message b.provider_id b.provider_message_type b.provider_message_type_name
              (converted b message))
            l,
      )

  unfoldable pub ingress_request : PortRequest V → TraceId → Live V → Result Unit × Live V
  unfolding push_live_request convert_request
  ingress_request r work l =
      if not (r.port_program == l.core.program.program)
      then fault_with external_port none work FaultReason.foreign_request_port l
      else elim (live_binding_at r.protocol_type r.port l.core) [
        | none ↦ fault_with external_port none work FaultReason.unbound_request_port l
        | some b ↦ convert_request b (r.into_message l.core.next_request) work (
            with_core
              (push_live_request r.reply_type (RequestContinuation.host r.reply_type r.host)) l)
      ]

  unfoldable pub process_port_ingress : LivePortIngress V → Live V → Result Unit × Live V
  unfolding ingress_notification ingress_request next_work
  process_port_ingress (LivePortIngress.notification n) l =
      ingress_notification n l.core.next_work (with_core next_work l)
  process_port_ingress (LivePortIngress.request r) l =
      ingress_request r l.core.next_work (with_core next_work l)

  -- The initial Command of one Component; `false` ends `initialize` early.
  unfoldable pub start_command :
      Option (ErasedCommand V) → ComponentId → TraceId → Live V → Result Bool × Live V
  unfolding interfere is_cancelling interpret_live
  start_command none id work l = (ok Bool.true, l)
  start_command (some command) id work l =
      let l1 = interfere l in
      if is_cancelling l1.scope.phase
      then (ok Bool.false, l1)
      else then_live (interpret_live unwinds command id work l1) (λ _ l2. (ok Bool.true, l2))

  unfoldable pub start_projection :
      ComponentKernel V
      → Option (ErasedCommand V)
      → TraceId
      → Reconciled V
      → Live V
      → Result Bool × Live V
  unfolding interfere is_cancelling observe_drain_cutoff change_all start_command
  start_projection k command work (duplicate id) l =
      (err (RuntimeError.fault k.id none work (FaultReason.duplicate_subscription id)), l)
  start_projection k command work (changes list) l =
      let l1 = interfere l in
      if is_cancelling l1.scope.phase
      then (ok Bool.false, l1)
      else then_live (observe_drain_cutoff l1) (λ _ l2.
        then_live (change_all k.id k.message_type k.message_type_name list work l2)
          (λ _ l3. start_command command k.id work l3))

  -- The body of the loop of `initialize` for one Component.
  unfoldable pub start_kernel : ℕ → ComponentKernel V → Live V → Result Bool × Live V
  unfolding next_work set_kernel start_projection
  start_kernel index k l =
      let (k1, result) = reconcile_subscriptions k in
      let (k2, command) = take_initial_command k1 in
      start_projection k (Option.map (erase_command k) command) l.core.next_work result
        (with_core (set_kernel index k2) (with_core next_work l))

  -- The loop; an index that is out of range panics.
  unfoldable pub start_each : List (ℕ × ComponentId) → Live V → Result Unit × Live V
  unfolding interfere is_cancelling start_kernel
  start_each [] l = (ok tt, l)
  start_each ((index, id) ∷ rest) l =
      let l1 = interfere l in
      if is_cancelling l1.scope.phase
      then (ok tt, l1)
      else elim (get_elem? l1.core.program.components index) [
        | none ↦ (panic, l1)
        | some k ↦
            then_live (start_kernel index k l1)
              (λ more l2. let rest_l = start_each rest l2 in if more then rest_l else (ok tt, l2))
      ]

  -- `initialize`.
  unfoldable pub start_live : Live V → Result Unit × Live V
  unfolding observe_drain_cutoff start_each
  start_live l =
      then_live (observe_drain_cutoff l)
        (λ _ l1. start_each (sort_indexed (indexed 0 l1.core.program.components)) l1)
