-- ===== src/Controlled/Commands/Origins.antt =====
-- What all the arms of `interpret_command` use.
use samara.Prelude.{Option, none, Bool, any, find}
use samara.Values.{TypeId, TypeName, TraceId}
use samara.Ids.{ComponentId, PortId}
use samara.Program.{PortBinding, is_target, is_binding}
use samara.Controlled.State.{DeliveryKind, QueuedMessage, ControlledCore}

-- What `interpret_command` knows throughout: the Component, its Message type and the cause.
pub record Origin : Type 0 where
  pub component : ComponentId
  pub message_type : TypeId
  pub message_type_name : TypeName
  pub cause : TraceId

module _ {V : Type 0} where
  -- `component_index(..).is_some()`.
  abbrev pub has_target : ComponentId → TypeId → ControlledCore V → Bool
  has_target id message_type c = any (is_target id message_type) c.program.components

  abbrev pub binding_at : TypeId → PortId → ControlledCore V → Option (PortBinding V)
  binding_at protocol port c = find (is_binding protocol port) c.program.bindings

  -- A message for the provider of a binding, converted to its Message type.
  unfoldable pub provider_message : PortBinding V → V → TraceId → QueuedMessage V
  provider_message b protocol_message work = record {
    target = b.provider_id;
    target_message_type = b.provider_message_type;
    message_type_name = b.provider_message_type_name;
    message = record { type_id = b.provider_message_type; payload = b.convert protocol_message };
    cause = work;
    source = none;
    delivery = DeliveryKind.message;
  }
