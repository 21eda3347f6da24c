-- ===== src/Program.antt =====
-- Program of src/lib.rs: the closed blueprint, and what it declares.
pub mod Builder
pub mod Initial
use samara.Prelude.{Bool, Option, List, ◌&&◌, ◌==◌, any, find, is_some_and}
use samara.Values.{TypeId, TypeName, ProgramRef, CapabilityToken, belongs_to, same_as}
use samara.Ids.{ComponentId, PortId, id_eq}
use samara.Kernel.{ComponentKernel}

pub record EffectRequirement : Type 0 where
  pub token : CapabilityToken
  pub descriptor_type : TypeId
  pub descriptor_type_name : TypeName

pub record SourceRequirement : Type 0 where
  pub token : CapabilityToken
  pub descriptor_type : TypeId
  pub descriptor_type_name : TypeName
  pub terminal_type : TypeId
  pub terminal_type_name : TypeName
  pub terminal_stream_item_type : Option TypeId

-- ComponentRef<C>, with the types that C determines.
pub record ComponentRef : Type 0 where
  pub id : ComponentId
  pub program : ProgramRef
  pub component_type : TypeId
  pub message_type : TypeId
  pub message_type_name : TypeName

-- Port<P>.
pub record Port : Type 0 where
  pub id : PortId
  pub program : ProgramRef
  pub protocol_type : TypeId
  pub protocol_type_name : TypeName

module _ (V : Type 0) where
  -- PortBinding<P, C>; `convert` is C::Message::from.
  pub record PortBinding : Type 0 where
    pub protocol_type : TypeId
    pub protocol_type_name : TypeName
    pub port_id : PortId
    pub port_program : ProgramRef
    pub provider_id : ComponentId
    pub provider_program : ProgramRef
    pub provider_component_type : TypeId
    pub provider_message_type : TypeId
    pub provider_message_type_name : TypeName
    pub convert : V → V

  pub record Program : Type 0 where
    pub program : ProgramRef
    pub components : List (ComponentKernel V)
    pub bindings : List PortBinding
    pub effect_requirements : List EffectRequirement
    pub source_requirements : List SourceRequirement

module _ {V : Type 0} where
  unfoldable pub effect_requirement : Program V → CapabilityToken → Option EffectRequirement
  effect_requirement p token = find (λ r. same_as r.token token) p.effect_requirements

  unfoldable pub source_requirement : Program V → CapabilityToken → Option SourceRequirement
  source_requirement p token = find (λ r. same_as r.token token) p.source_requirements

  unfoldable pub declares_effect : Program V → CapabilityToken → TypeId → Bool
  declares_effect p token descriptor =
      belongs_to token p.program
      && is_some_and (effect_requirement p token) (λ r. r.descriptor_type == descriptor)

  unfoldable pub declares_source : Program V → CapabilityToken → TypeId → Bool
  declares_source p token descriptor =
      belongs_to token p.program
      && is_some_and (source_requirement p token) (λ r. r.descriptor_type == descriptor)

  unfoldable pub declares_source_plan : Program V → CapabilityToken → TypeId → TypeId → Bool
  declares_source_plan p token descriptor terminal =
      declares_source p token descriptor
      && is_some_and (source_requirement p token) (λ r. r.terminal_type == terminal)

  abbrev pub is_target : ComponentId → TypeId → ComponentKernel V → Bool
  is_target id message_type k = id_eq k.id id && k.message_type == message_type

  abbrev pub is_binding : TypeId → PortId → PortBinding V → Bool
  is_binding protocol port b = b.protocol_type == protocol && id_eq b.port_id port

  unfoldable pub declares_component_target : Program V → ProgramRef → ComponentId → TypeId → Bool
  declares_component_target p target_program target message_type =
      target_program == p.program && any (is_target target message_type) p.components

  unfoldable pub declares_port_target : Program V → ProgramRef → PortId → TypeId → Bool
  declares_port_target p port_program port protocol =
      port_program == p.program && any (is_binding protocol port) p.bindings
