-- ===== src/Program/Initial.antt =====
-- `validate_initial_capabilities` of src/lib.rs: the startup Command and the initially desired
-- subscriptions of one Component against its Program.
use samara.Prelude.{Option, none, some, Bool, true, not, ◌||◌, List, [], ◌∷◌, ◌==◌, if◌then◌else◌}
use samara.Ids.{ComponentId, SubscriptionId}
use samara.Errors.{HarnessReason}
use samara.Command.{Command, Commands}
use samara.Source.{accepts_output_event_type}
use samara.Subscription.{Subscription, Subscriptions, source_plan}
use samara.Reconciler.{has_id}
use samara.Kernel.{ComponentKernel}
use samara.Program.{
  Program, declares_effect, declares_source, declares_component_target, declares_port_target,
  source_requirement,
}

abbrev pub unless : Bool → HarnessReason → Option HarnessReason
unless true reason = none
unless Bool.false reason = some reason

abbrev pub first_reason : Option HarnessReason → Option HarnessReason → Option HarnessReason
first_reason none r = r
first_reason (some e) r = some e

module _ {V : Type 0} where
  unfoldable mutual
    pub validate_command : Program V → ComponentId → Command V → Option HarnessReason
    validate_command p id Command.nothing = none
    validate_command p id (Command.reply c) = none
    validate_command p id (Command.after delay message) = none
    validate_command p id (Command.effect c) =
        unless (declares_effect p c.capability c.intent_type)
          (HarnessReason.foreign_initial_effect id c.intent_type_name)
    validate_command p id (Command.send c) =
        unless (declares_component_target p c.target_program c.target c.message_type)
          (HarnessReason.foreign_initial_target id c.target)
    validate_command p id (Command.notify c) =
        unless (declares_port_target p c.port_program c.port c.protocol_type)
          (HarnessReason.foreign_initial_notify id c.port)
    validate_command p id (Command.request c) =
        unless (declares_port_target p c.port_program c.port c.protocol_type)
          (HarnessReason.foreign_initial_request id c.port)
    validate_command p id (Command.batch cs) = validate_all p id cs

    pub validate_all : Program V → ComponentId → Commands V → Option HarnessReason
    validate_all p id Commands.nil = none
    validate_all p id (Commands.cons c cs) =
        first_reason (validate_command p id c) (validate_all p id cs)

  -- The checks on one subscription after the test for a repeated identity.
  unfoldable pub validate_subscription :
      Program V → ComponentId → Subscription V → Option HarnessReason
  unfolding source_plan
  validate_subscription p id s =
      let plan = source_plan s in
      if not (accepts_output_event_type plan s.source_event_type)
      then some (HarnessReason.invalid_initial_plan id plan.terminal_type_name)
      else elim (source_requirement p plan.capability) [
        | none ↦ some (HarnessReason.foreign_initial_source id s.descriptor_type_name)
        | some requirement ↦
            if not (declares_source p plan.capability s.descriptor_type)
              || not (requirement.terminal_type == plan.terminal_type)
            then some (HarnessReason.inconsistent_initial_source id s.descriptor_type_name)
            else none
      ]

  unfoldable pub validate_subscriptions :
      Program V → ComponentId → List SubscriptionId → Subscriptions V → Option HarnessReason
  unfolding has_id validate_subscription
  validate_subscriptions p id seen [] = none
  validate_subscriptions p id seen (s ∷ rest) =
      let more = validate_subscriptions p id (s.id ∷ seen) rest in
      if has_id s.id seen
      then some (HarnessReason.duplicate_initial_subscription id s.id)
      else first_reason (validate_subscription p id s) more

  abbrev pub validate_startup : Program V → ComponentId → Option (Command V) → Option HarnessReason
  validate_startup p id none = none
  validate_startup p id (some command) = validate_command p id command

  unfoldable pub validate_initial_capabilities :
      Program V → ComponentKernel V → Option HarnessReason
  unfolding validate_command validate_all validate_subscriptions
  validate_initial_capabilities p k =
      first_reason (validate_startup p k.id k.initial_command)
        (validate_subscriptions p k.id [] (k.component.subscriptions k.model))
