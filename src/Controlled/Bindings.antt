-- ===== src/Controlled/Bindings.antt =====
-- ControlledBindings::validate and ControlledRuntimeBuilder::build.
pub mod Coverage
use samara.Prelude.{
  Option, none, some, Bool, not, ◌||◌, List, [], ◌∷◌, ◌==◌, any, is_none, if◌then◌else◌,
}
use samara.Values.{CapabilityToken, belongs_to, same_as}
use samara.Errors.{HarnessReason}
use samara.Program.{EffectRequirement, SourceRequirement, Program, source_requirement}
use samara.Program.Initial.{first_reason}
use samara.Controlled.State.{ControlledBindings}

module _ {V : Type 0} where
  -- One round of the loop over the exact bindings; `later` are those after it.
  unfoldable pub check_exact :
      Program V
      → ControlledBindings V
      → CapabilityToken
      → List CapabilityToken
      → Option HarnessReason
  check_exact p b capability later =
      if not (belongs_to capability p.program)
      then some HarnessReason.foreign_exact_binding
      else elim (source_requirement p capability) [
        | none ↦ some HarnessReason.undeclared_exact_binding
        | some r ↦
            if is_none r.terminal_stream_item_type
            then some (
                HarnessReason.exact_binding_without_stream r.descriptor_type_name
                  r.terminal_type_name)
            else if any (λ other. same_as other capability) later
            then some HarnessReason.duplicate_exact_binding
            else if any (λ t. t == r.terminal_type) b.sources
            then some (HarnessReason.ambiguous_binding r.terminal_type_name)
            else none
      ]

  unfoldable pub check_each_exact :
      Program V → ControlledBindings V → List CapabilityToken → Option HarnessReason
  unfolding check_exact
  check_each_exact p b [] = none
  check_each_exact p b (capability ∷ later) =
      first_reason (check_exact p b capability later) (check_each_exact p b later)

  unfoldable pub check_effects :
      ControlledBindings V → List EffectRequirement → Option HarnessReason
  check_effects b [] = none
  check_effects b (r ∷ rest) =
      let more = check_effects b rest in
      if not (any (λ t. t == r.descriptor_type) b.effects)
      then some (HarnessReason.effect_without_behavior r.descriptor_type_name)
      else more

  abbrev pub is_controlled : ControlledBindings V → SourceRequirement → Bool
  is_controlled b r =
      any (λ t. t == r.terminal_type) b.sources
      || any (λ capability. same_as capability r.token) b.exact_sources

  unfoldable pub check_sources :
      ControlledBindings V → List SourceRequirement → Option HarnessReason
  check_sources b [] = none
  check_sources b (r ∷ rest) =
      let more = check_sources b rest in
      if not (is_controlled b r)
      then some (HarnessReason.source_without_behavior r.descriptor_type_name r.terminal_type_name)
      else more

  unfoldable pub validate : ControlledBindings V → Program V → Option HarnessReason
  unfolding check_each_exact check_effects check_sources
  validate b p =
      first_reason (check_each_exact p b b.exact_sources) (
        first_reason (check_effects b p.effect_requirements)
          (check_sources b p.source_requirements))
