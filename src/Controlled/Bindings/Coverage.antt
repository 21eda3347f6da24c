-- ===== src/Controlled/Bindings/Coverage.antt =====
-- What an accepted set of controlled bindings covers.
use samara.Prelude.{
  ◌≡◌, refl, true, false, Option, none, some, Option-cases, inl, inr, List, [], ◌∷◌, ◌==◌, All, any,
  is_none, arith,
}
use samara.Values.{CapabilityToken, belongs_to, same_as}
use samara.Errors.{HarnessReason}
use samara.Program.{EffectRequirement, SourceRequirement, Program, source_requirement}
use samara.Program.Initial.{first_reason}
use samara.Controlled.State.{ControlledBindings}
use samara.Controlled.Bindings.{
  check_exact, check_each_exact, check_effects, is_controlled, check_sources, validate,
}

first_reason-none : (a b : Option HarnessReason) → first_reason a b ≡ none → (a ≡ none) × (b ≡ none)
first_reason-none none b h = (refl, h)
first_reason-none (some x) b h = cc

module _ {V : Type 0} where
  abbrev pub IsBound : ControlledBindings V → EffectRequirement → Type 0
  IsBound b r = any (λ t. t == r.descriptor_type) b.effects ≡ true

  check_effects-All :
      (b : ControlledBindings V) (rs : List EffectRequirement)
      → check_effects b rs ≡ none
      → All (IsBound b) rs
  unfolding check_effects
  check_effects-All b [] h = tt
  check_effects-All b (r ∷ rs) h = ground (arith, check_effects-All b rs)

  check_sources-All :
      (b : ControlledBindings V) (rs : List SourceRequirement)
      → check_sources b rs ≡ none
      → All (λ r. is_controlled b r ≡ true) rs
  unfolding check_sources
  check_sources-All b [] h = tt
  check_sources-All b (r ∷ rs) h = ground (arith, check_sources-All b rs)

  -- An exact binding names a stream Source that this Program declares, and its terminal type is not
  -- bound as a whole as well.
  pub record IsExact (p : Program V) (b : ControlledBindings V) (token : CapabilityToken)
      : Type 0 where
    pub requirement : SourceRequirement
    pub declared : source_requirement p token ≡ some requirement
    pub ours : belongs_to token p.program ≡ true
    pub stream : is_none requirement.terminal_stream_item_type ≡ false
    pub unambiguous : any (λ t. t == requirement.terminal_type) b.sources ≡ false

  abbrev pub AreExact : Program V → ControlledBindings V → List CapabilityToken → Type 0
  AreExact p b [] = Unit
  AreExact p b (token ∷ later) =
      IsExact p b token × (any (λ other. same_as other token) later ≡ false) × AreExact p b later

  check_exact-IsExact :
      (p : Program V) (b : ControlledBindings V) (token : CapabilityToken)
      (later : List CapabilityToken)
      → check_exact p b token later ≡ none
      → IsExact p b token × (any (λ other. same_as other token) later ≡ false)
  unfolding check_exact
  check_exact-IsExact p b token later h = elim (Option-cases (source_requirement p token)) [
    | inl e ↦ absurd (ground arith)
    | inr (r, e) ↦ (
      record {
        requirement = r;
        declared = e;
        ours = ground arith;
        stream = ground arith;
        unambiguous = ground arith;
      },
      ground arith,
    )
  ]

  check_each_exact-AreExact :
      (p : Program V) (b : ControlledBindings V) (tokens : List CapabilityToken)
      → check_each_exact p b tokens ≡ none
      → AreExact p b tokens
  unfolding check_each_exact
  check_each_exact-AreExact p b [] h = tt
  check_each_exact-AreExact p b (token ∷ later) h =
      let parts = first_reason-none _ _ h in
      let now = check_exact-IsExact p b token later parts.0 in
      (now.0, now.1, check_each_exact-AreExact p b later parts.1)

  -- Bindings that are accepted control the whole Program: every effect and every Source that it
  -- declares has a controlled behavior, and the exact bindings name distinct stream Sources of
  -- this Program, none of which is bound by its type as well.
  pub validate-covers :
      (b : ControlledBindings V) (p : Program V)
      → validate b p ≡ none
      → All (IsBound b) p.effect_requirements
        × All (λ r. is_controlled b r ≡ true) p.source_requirements
        × AreExact p b b.exact_sources
  unfolding validate
  validate-covers b p h =
      let parts = first_reason-none _ _ h in
      let rest = first_reason-none _ _ parts.1 in
      (
        check_effects-All b p.effect_requirements rest.0,
        check_sources-All b p.source_requirements rest.1,
        check_each_exact-AreExact p b b.exact_sources parts.0,
      )
