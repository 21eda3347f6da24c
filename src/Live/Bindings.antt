-- ===== src/Live/Bindings.antt =====
-- LiveBindings of src/live_runtime.rs: the registry of Drivers, and its check against a Program.
use samara.Prelude.{
  Bool, true, false, not, ◌&&◌, ◌||◌, Option, none, some, List, [], ◌∷◌, ◌==◌, any, find, filter,
  count, is_some_and, if◌then◌else◌,
}
use samara.Values.{TypeId, CapabilityToken, same_as, belongs_to}
use samara.Errors.{FaultReason, HarnessReason}
use samara.Source.{SourcePlan}
use samara.Program.{Program, EffectRequirement, SourceRequirement}
use samara.Live.State.{EffectBinding, BindingKind, SourceBinding, LiveBindings}

unfoldable pub is_type_wide : BindingKind → Bool
is_type_wide BindingKind.typed = true
is_type_wide BindingKind.mpsc = false
is_type_wide BindingKind.stdin = false

abbrev pub or_else : Option HarnessReason → Option HarnessReason → Option HarnessReason
or_else (some reason) more = some reason
or_else none more = more

-- The result of `source`: the one match, or why there is none.
pub data SourceMatch (V : Type 0) : Type 0 where
  matched : SourceBinding V → SourceMatch V
  unmatched : FaultReason → SourceMatch V

module _ {V : Type 0} where
  unfoldable pub exact_capability : SourceBinding V → Option CapabilityToken
  unfolding is_type_wide
  exact_capability b = if is_type_wide b.kind then none else some b.capability

  unfoldable pub serves : SourceBinding V → TypeId → CapabilityToken → Bool
  unfolding is_type_wide
  serves b terminal token =
      terminal == b.descriptor_type && (is_type_wide b.kind || same_as b.capability token)

  unfoldable pub matches_plan : SourceBinding V → SourcePlan V → Bool
  unfolding serves
  matches_plan b plan = serves b plan.terminal_type plan.capability

  unfoldable pub satisfies : SourceBinding V → SourceRequirement → Bool
  unfolding serves
  satisfies b r = serves b r.terminal_type r.token

  unfoldable pub conflicts : SourceBinding V → SourceBinding V → Bool
  unfolding is_type_wide exact_capability
  conflicts b other = elim b.kind [
    | BindingKind.typed ↦ other.descriptor_type == b.descriptor_type
    | BindingKind.mpsc ↦
        other.descriptor_type == b.descriptor_type
        && (is_type_wide other.kind
            || is_some_and (exact_capability other) (λ token. same_as token b.capability))
    | BindingKind.stdin ↦ other.descriptor_type == b.descriptor_type
  ]

  abbrev pub effect_serves : TypeId → EffectBinding V → Bool
  effect_serves descriptor b = b.descriptor_type == descriptor

  -- The first loop: `types` holds what the HashSet has.
  unfoldable pub find_duplicate_effect : List TypeId → List (EffectBinding V) → Option HarnessReason
  find_duplicate_effect types [] = none
  find_duplicate_effect types (b ∷ rest) =
      let more = find_duplicate_effect (b.descriptor_type ∷ types) rest in
      if any (λ t. t == b.descriptor_type) types
      then some (HarnessReason.duplicate_effect_binding b.descriptor_type_name)
      else more

  unfoldable pub check_live_exact :
      Program V → SourceBinding V → Option CapabilityToken → Option HarnessReason
  check_live_exact program b none = none
  check_live_exact program b (some token) =
      if not (belongs_to token program.program)
      then some (HarnessReason.foreign_live_binding b.descriptor_type_name)
      else elim (find (λ r. same_as r.token token) program.source_requirements) [
        | none ↦ some (HarnessReason.undeclared_live_binding b.descriptor_type_name)
        | some r ↦
            if not (r.terminal_type == b.descriptor_type)
            then some (
                HarnessReason.live_binding_terminal_mismatch b.descriptor_type_name
                  r.terminal_type_name)
            else none
      ]

  -- The second loop.
  unfoldable pub check_live_sources : Program V → List (SourceBinding V) → Option HarnessReason
  unfolding conflicts exact_capability check_live_exact
  check_live_sources program [] = none
  check_live_sources program (b ∷ rest) =
      let more = check_live_sources program rest in
      if any (λ other. conflicts b other || conflicts other b) rest
      then some (HarnessReason.ambiguous_source_binding b.descriptor_type_name)
      else or_else (check_live_exact program b (exact_capability b)) more

  unfoldable pub count_effects :
      List (EffectBinding V) → List EffectRequirement → Option HarnessReason
  count_effects effects [] = none
  count_effects effects (r ∷ rest) =
      let more = count_effects effects rest in
      let found = count (effect_serves r.descriptor_type) effects in
      if not (found == 1)
      then some (HarnessReason.effect_binding_count r.descriptor_type_name found)
      else more

  unfoldable pub count_sources :
      List (SourceBinding V) → List SourceRequirement → Option HarnessReason
  unfolding satisfies
  count_sources sources [] = none
  count_sources sources (r ∷ rest) =
      let more = count_sources sources rest in
      let found = count (λ b. satisfies b r) sources in
      if not (found == 1)
      then some
          (HarnessReason.source_binding_count r.descriptor_type_name r.terminal_type_name found)
      else more

  -- `validate`: the reason of its error.
  unfoldable pub validate_live : LiveBindings V → Program V → Option HarnessReason
  unfolding find_duplicate_effect check_live_sources count_effects count_sources
  validate_live bindings program = or_else (find_duplicate_effect [] bindings.effects) (
      or_else (check_live_sources program bindings.sources) (
        or_else (count_effects bindings.effects program.effect_requirements)
          (count_sources bindings.sources program.source_requirements)))

  unfoldable pub effect_binding : LiveBindings V → TypeId → Option (EffectBinding V)
  effect_binding bindings descriptor = find (effect_serves descriptor) bindings.effects

  unfoldable pub only_match : List (SourceBinding V) → SourceMatch V
  only_match [] = SourceMatch.unmatched FaultReason.missing_source_binding
  only_match (b ∷ []) = SourceMatch.matched b
  only_match (b ∷ other ∷ rest) = SourceMatch.unmatched FaultReason.ambiguous_source_binding

  unfoldable pub source_binding : LiveBindings V → SourcePlan V → SourceMatch V
  unfolding matches_plan only_match
  source_binding bindings plan = only_match (filter (λ b. matches_plan b plan) bindings.sources)
