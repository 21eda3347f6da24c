-- ===== src/Program/Builder.antt =====
-- ProgramBuilder of src/lib.rs: declarations, and the structural validation of `build`.
pub mod Closed
pub mod Tokens
use samara.Prelude.{
  ℕ, suc, Option, none, some, Bool, not, ◌&&◌, List, [], ◌∷◌, ◌++◌, ◌==◌, any, count, if◌then◌else◌,
}
use samara.Values.{TypeId, TypeName, ProgramRef, CapabilityToken}
use samara.Ids.{ComponentId, PortId, id_eq}
use samara.Errors.{ProgramBuildError}
use samara.Kernel.{Component, ComponentKernel, new_kernel}
use samara.Program.{
  EffectRequirement, SourceRequirement, ComponentRef, Port, PortBinding, Program, is_binding,
}

pub record PortDeclaration : Type 0 where
  pub protocol_type : TypeId
  pub protocol_type_name : TypeName
  pub id : PortId
  pub program : ProgramRef

-- A SourceDescriptor type, with what it lowers to.
pub record SourceType : Type 0 where
  pub descriptor_type : TypeId
  pub descriptor_type_name : TypeName
  pub terminal_type : TypeId
  pub terminal_type_name : TypeName
  pub terminal_stream_item_type : Option TypeId

abbrev pub same_port : PortDeclaration → PortDeclaration → Bool
same_port p q = p.protocol_type == q.protocol_type && id_eq p.id q.id

-- The loop over the declared Ports: a repeated key, or a Port of another builder.
unfoldable pub check_ports :
    ProgramRef → List PortDeclaration → List PortDeclaration → Option ProgramBuildError
check_ports program seen [] = none
check_ports program seen (p ∷ rest) =
    let more = check_ports program (p ∷ seen) rest in
    if any (λ q. same_port q p) seen
    then some (ProgramBuildError.duplicate_port p.protocol_type_name p.id)
    else if not (p.program == program)
    then some (ProgramBuildError.foreign_port p.protocol_type_name p.id)
    else more

module _ (V : Type 0) where
  pub record ProgramBuilder : Type 0 where
    pub program : ProgramRef
    pub components : List (ComponentKernel V)
    pub ports : List PortDeclaration
    pub bindings : List (PortBinding V)
    pub effect_requirements : List EffectRequirement
    pub source_requirements : List SourceRequirement
    pub next_capability : ℕ

  -- Result<Program, ProgramBuildError>.
  pub data Built : Type 0 where
    built : Program V → Built
    refused : ProgramBuildError → Built

module _ {V : Type 0} where
  -- Program::builder; `program` is the address of the fresh Arc.
  unfoldable pub builder : ProgramRef → ProgramBuilder V
  builder program = record {
    program = program;
    components = [];
    ports = [];
    bindings = [];
    effect_requirements = [];
    source_requirements = [];
    next_capability = 0;
  }

  unfoldable pub next_capability : ProgramBuilder V → CapabilityToken × ProgramBuilder V
  next_capability b = (
    record { id = b.next_capability; program = b.program },
    record b { next_capability = suc b.next_capability },
  )

  unfoldable pub effect : TypeId → TypeName → ProgramBuilder V → CapabilityToken × ProgramBuilder V
  unfolding next_capability
  effect descriptor_type name b =
      let (token, b') = next_capability b in
      (
        token,
        record b' {
          effect_requirements =
              b'.effect_requirements
              ++ record {
                token = token;
                descriptor_type = descriptor_type;
                descriptor_type_name = name;
              }
                ∷ [];
        },
      )

  unfoldable pub source : SourceType → ProgramBuilder V → CapabilityToken × ProgramBuilder V
  unfolding next_capability
  source s b =
      let (token, b') = next_capability b in
      (
        token,
        record b' {
          source_requirements =
              b'.source_requirements
              ++ record {
                token = token;
                descriptor_type = s.descriptor_type;
                descriptor_type_name = s.descriptor_type_name;
                terminal_type = s.terminal_type;
                terminal_type_name = s.terminal_type_name;
                terminal_stream_item_type = s.terminal_stream_item_type;
              }
                ∷ [];
        },
      )

  unfoldable pub component :
      ComponentId → Component V → ProgramBuilder V → ComponentRef × ProgramBuilder V
  unfolding new_kernel
  component id c b = (
    record {
      id = id;
      program = b.program;
      component_type = c.component_type;
      message_type = c.message_type;
      message_type_name = c.message_type_name;
    },
    record b { components = b.components ++ new_kernel id c ∷ [] },
  )

  unfoldable pub port : PortId → TypeId → TypeName → ProgramBuilder V → Port × ProgramBuilder V
  port id protocol_type name b = (
    record {
      id = id;
      program = b.program;
      protocol_type = protocol_type;
      protocol_type_name = name;
    },
    record b {
      ports =
          b.ports
          ++ record {
            protocol_type = protocol_type;
            protocol_type_name = name;
            id = id;
            program = b.program;
          }
            ∷ [];
    },
  )

  -- `convert` is the provider's `From<P::Message>`.
  unfoldable pub bind_port : Port → ComponentRef → (V → V) → ProgramBuilder V → ProgramBuilder V
  bind_port p provider convert b = record b {
    bindings =
        b.bindings
        ++ record {
          protocol_type = p.protocol_type;
          protocol_type_name = p.protocol_type_name;
          port_id = p.id;
          port_program = p.program;
          provider_id = provider.id;
          provider_program = provider.program;
          provider_component_type = provider.component_type;
          provider_message_type = provider.message_type;
          provider_message_type_name = provider.message_type_name;
          convert = convert;
        }
          ∷ [];
  }

  -- The first loop of `build`, over the identities inserted so far.
  unfoldable pub check_components :
      List ComponentId → List (ComponentKernel V) → Option ProgramBuildError
  check_components seen [] = none
  check_components seen (k ∷ rest) =
      let more = check_components (k.id ∷ seen) rest in
      if any (λ id. id_eq id k.id) seen
      then some (ProgramBuildError.duplicate_component_id k.id)
      else more

  abbrev pub is_provider : PortBinding V → ComponentKernel V → Bool
  is_provider b k =
      id_eq k.id b.provider_id && k.component.component_type == b.provider_component_type

  -- The loop over the bindings.
  unfoldable pub check_bindings :
      ProgramRef → List (ComponentKernel V) → List (PortBinding V) → Option ProgramBuildError
  check_bindings program components [] = none
  check_bindings program components (b ∷ rest) =
      let more = check_bindings program components rest in
      if not (b.port_program == program)
      then some (ProgramBuildError.foreign_port b.protocol_type_name b.port_id)
      else if not (b.provider_program == program)
      then some (ProgramBuildError.foreign_provider b.provider_id)
      else if not (any (is_provider b) components)
      then some (ProgramBuildError.provider_not_registered b.provider_id)
      else more

  abbrev pub binding_count : PortDeclaration → List (PortBinding V) → ℕ
  binding_count p bindings = count (is_binding p.protocol_type p.id) bindings

  -- The last loop: exactly one binding for each Port.
  unfoldable pub check_counts :
      List (PortBinding V) → List PortDeclaration → Option ProgramBuildError
  check_counts bindings [] = none
  check_counts bindings (p ∷ rest) =
      let more = check_counts bindings rest in
      if not (binding_count p bindings == 1)
      then some (
          ProgramBuildError.port_binding_count p.protocol_type_name p.id (binding_count p bindings))
      else more

  abbrev pub refuse_or : Option ProgramBuildError → Built V → Built V
  refuse_or none r = r
  refuse_or (some e) r = Built.refused e

  unfoldable pub finish : ProgramBuilder V → Program V
  finish b = record {
    program = b.program;
    components = b.components;
    bindings = b.bindings;
    effect_requirements = b.effect_requirements;
    source_requirements = b.source_requirements;
  }

  unfoldable pub build : ProgramBuilder V → Built V
  unfolding check_components check_ports check_bindings check_counts finish
  build b = refuse_or (check_components [] b.components) (
      refuse_or (check_ports b.program [] b.ports) (
        refuse_or (check_bindings b.program b.components b.bindings)
          (refuse_or (check_counts b.bindings b.ports) (Built.built (finish b)))))
