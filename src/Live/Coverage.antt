-- ===== src/Live/Coverage.antt =====
-- The bindings that LiveBindings::validate accepts serve the whole Program.
use samara.Prelude.{
  both, ℕ, suc, ◌≡◌, refl, sym, subst, ◌∙◌, ap, Bool, true, ◌&&◌, ◌||◌, Option, none, some, List,
  [], ◌∷◌, ◌==◌, ==_iff, find, filter, count, All, All-find, find_test, is_some, is_some_and,
  Bool-cases, inl, inr, arith,
}
use samara.Values.{TypeId, CapabilityToken, same_as}
use samara.Errors.{HarnessReason}
use samara.Source.{SourcePlan}
use samara.Program.{
  Program, EffectRequirement, SourceRequirement, effect_requirement, source_requirement,
  declares_effect, declares_source_plan,
}
use samara.Live.State.{EffectBinding, SourceBinding, LiveBindings}
use samara.Live.Bindings.{
  is_type_wide, serves, matches_plan, satisfies, effect_serves, or_else, find_duplicate_effect,
  check_live_sources, count_effects, count_sources, validate_live, effect_binding, SourceMatch,
  only_match, source_binding,
}

module _ {A : Type 0} (p : A → Bool) where
  counted-find : (xs : List A) (n : ℕ) → count p xs ≡ suc n → is_some (find p xs) ≡ true
  counted-find [] n e = absurd (omega (arith, e))
  counted-find (x ∷ xs) n e = ground (arith, counted-find xs n)

  uncounted-filter : (xs : List A) → count p xs ≡ 0 → filter p xs ≡ []
  uncounted-filter [] e = refl
  uncounted-filter (x ∷ xs) e = ground (arith, uncounted-filter xs)

  -- One match is the whole of the filtered list.
  counted-filter : (xs : List A) → count p xs ≡ 1 → (x : A) × (filter p xs ≡ x ∷ []) × (p x ≡ true)
  counted-filter [] e = absurd (omega (arith, e))
  counted-filter (x ∷ xs) e = elim (Bool-cases (p x)) [
    | inl h ↦
        let others : count p xs ≡ 0 = ground (arith, e, h) in
        (x, rw h (ap (λ ys. x ∷ ys) (uncounted-filter xs others)), h)
    | inr h ↦ let others : count p xs ≡ 1 = ground (arith, e, h) in rw h (counted-filter xs others)
  ]

  filter-cong : (q : A → Bool) (xs : List A) → ((x : A) → p x ≡ q x) → filter p xs ≡ filter q xs
  filter-cong q [] h = refl
  filter-cong q (x ∷ xs) h = rw (h x, filter-cong q xs h) refl

or_else-none : (a b : Option HarnessReason) → or_else a b ≡ none → (a ≡ none) × (b ≡ none)
or_else-none none b e = (refl, e)
or_else-none (some x) b e = cc

same_as-eq : (a b : CapabilityToken) → same_as a b ≡ true → (a.id ≡ b.id) × (a.program ≡ b.program)
unfolding same_as
same_as-eq a b e = ground arith

is_some_and-some :
    {A : Type 0} (o : Option A) (q : A → Bool)
    → is_some_and o q ≡ true
    → (a : A) × (o ≡ some a) × (q a ≡ true)
is_some_and-some none q e = cc
is_some_and-some (some a) q e = (a, refl, e)

module _ {V : Type 0} where
  count_effects-All :
      (effects : List (EffectBinding V)) (list : List EffectRequirement)
      → count_effects effects list ≡ none
      → All (λ r. count (effect_serves r.descriptor_type) effects ≡ 1) list
  unfolding count_effects
  count_effects-All effects [] e = tt
  count_effects-All effects (r ∷ rest) e = ground (arith, count_effects-All effects rest)

  count_sources-All :
      (sources : List (SourceBinding V)) (list : List SourceRequirement)
      → count_sources sources list ≡ none
      → All (λ r. count (λ b. satisfies b r) sources ≡ 1) list
  unfolding count_sources
  count_sources-All sources [] e = tt
  count_sources-All sources (r ∷ rest) e = ground (arith, count_sources-All sources rest)

  -- Tokens that are the same capability are served alike.
  serves-same :
      (a b : CapabilityToken) (terminal : TypeId) (x : SourceBinding V)
      → same_as a b ≡ true
      → serves x terminal a ≡ serves x terminal b
  unfolding serves same_as
  serves-same a b terminal x e =
      let same = same_as-eq a b e in
      ap
        (λ i.
          terminal == x.descriptor_type
          && (is_type_wide x.kind || (x.capability.id == i && x.capability.program == a.program)))
        same.0
      ∙ ap
          (λ q.
            terminal == x.descriptor_type
            && (is_type_wide x.kind || (x.capability.id == b.id && x.capability.program == q)))
          same.1

  plan_alike :
      (r : SourceRequirement) (plan : SourcePlan V)
      → r.terminal_type ≡ plan.terminal_type
      → same_as r.token plan.capability ≡ true
      → (x : SourceBinding V) → satisfies x r ≡ matches_plan x plan
  unfolding satisfies matches_plan
  plan_alike r plan t e x =
      ap (λ terminal. serves x terminal r.token) t
      ∙ serves-same r.token plan.capability plan.terminal_type x e

  effect-covered :
      (effects : List (EffectBinding V)) (program : Program V) (token : CapabilityToken)
      (d : TypeId)
      → count_effects effects program.effect_requirements ≡ none
      → declares_effect program token d ≡ true
      → is_some (find (effect_serves d) effects) ≡ true
  unfolding declares_effect effect_requirement
  effect-covered effects program token d e h =
      let (r, found, same) = is_some_and-some _ _ (both _ _ h).1 in
      let once =
        All-find _ (λ q. same_as q.token token) program.effect_requirements {x = r}
          (count_effects-All effects program.effect_requirements e) found in
      subst (λ t. is_some (find (effect_serves t) effects) ≡ true)
        ((==_iff r.descriptor_type d).0 same)
        (counted-find (effect_serves r.descriptor_type) effects 0 once)

  -- The one binding of a requirement is the one binding of its plans.
  source-covered :
      (bindings : LiveBindings V) (program : Program V) (plan : SourcePlan V) (d : TypeId)
      → count_sources bindings.sources program.source_requirements ≡ none
      → declares_source_plan program plan.capability d plan.terminal_type ≡ true
      → (b : SourceBinding V) × (source_binding bindings plan ≡ SourceMatch.matched b)
        × (matches_plan b plan ≡ true)
  unfolding declares_source_plan source_requirement source_binding only_match
  source-covered bindings program plan d e h =
      let (r, found, same) = is_some_and-some _ _ (both _ _ h).1 in
      let once =
        All-find _ (λ q. same_as q.token plan.capability) program.source_requirements {x = r}
          (count_sources-All bindings.sources program.source_requirements e) found in
      let alike =
        plan_alike r plan ((==_iff r.terminal_type plan.terminal_type).0 same)
          (find_test (λ q. same_as q.token plan.capability) program.source_requirements found) in
      let (b, matches, fits) = counted-filter (λ x. satisfies x r) bindings.sources once in
      (
        b,
        ap only_match (
            filter-cong (λ x. matches_plan x plan) (λ x. satisfies x r) bindings.sources
              (λ x. sym (alike x))
            ∙ matches),
        sym (alike b) ∙ fits,
      )

  validate_live-counts :
      (bindings : LiveBindings V) (program : Program V)
      → validate_live bindings program ≡ none
      → (count_effects bindings.effects program.effect_requirements ≡ none)
        × (count_sources bindings.sources program.source_requirements ≡ none)
  unfolding validate_live
  validate_live-counts bindings program e =
      let effects = count_effects bindings.effects program.effect_requirements in
      let later = or_else effects (count_sources bindings.sources program.source_requirements) in
      let sources = or_else (check_live_sources program bindings.sources) later in
      or_else-none effects (count_sources bindings.sources program.source_requirements)
        (or_else-none (check_live_sources program bindings.sources) later
          (or_else-none (find_duplicate_effect [] bindings.effects) sources e).1).1

  -- Bindings that `validate` accepts have a Driver for every effect that the Program declares.
  pub validate_live-effect :
      (bindings : LiveBindings V) (program : Program V) (token : CapabilityToken) (d : TypeId)
      → validate_live bindings program ≡ none
      → declares_effect program token d ≡ true
      → is_some (effect_binding bindings d) ≡ true
  unfolding effect_binding
  validate_live-effect bindings program token d e h =
      effect-covered bindings.effects program token d (validate_live-counts bindings program e).0 h

  -- Among bindings that `validate` accepts, every plan whose capability, descriptor and terminal the
  -- Program declares has exactly one match, and the lookup of `source` finds it.
  pub validate_live-source :
      (bindings : LiveBindings V) (program : Program V) (plan : SourcePlan V) (d : TypeId)
      → validate_live bindings program ≡ none
      → declares_source_plan program plan.capability d plan.terminal_type ≡ true
      → (b : SourceBinding V) × (source_binding bindings plan ≡ SourceMatch.matched b)
        × (matches_plan b plan ≡ true)
  validate_live-source bindings program plan d e h =
      source-covered bindings program plan d (validate_live-counts bindings program e).1 h
