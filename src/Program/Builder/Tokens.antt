-- ===== src/Program/Builder/Tokens.antt =====
-- The capabilities that a builder gives out.
use samara.Prelude.{
  ℕ, suc, false, ◌≡◌, ◌<◌, refl, ◌==◌, ==_self, some, List, [], ◌∷◌, ◌++◌, All, All-snoc, All-mono,
  find, arith,
}
use samara.Values.{TypeId, TypeName, CapabilityToken, belongs_to, same_as}
use samara.Program.{EffectRequirement, SourceRequirement, effect_requirement, declares_effect}
use samara.Program.Builder.{ProgramBuilder, next_capability, effect, finish}

-- Every declared effect carries a token below the counter.
abbrev pub AreBelow : ℕ → List EffectRequirement → Type 0
AreBelow n rs = All (λ r. r.token.id < n) rs

-- Every declared Source carries a token below the counter, which is the same one.
abbrev pub SourcesBelow : ℕ → List SourceRequirement → Type 0
SourcesBelow n rs = All (λ r. r.token.id < n) rs

-- A token above another one is another token.
larger-other : (a b : CapabilityToken) → a.id < b.id → same_as a b ≡ false
unfolding same_as
larger-other a b l = ground arith

find-fresh :
    (r : EffectRequirement) (rs : List EffectRequirement)
    → AreBelow r.token.id rs
    → find (λ x. same_as x.token r.token) (rs ++ r ∷ []) ≡ some r
unfolding same_as
find-fresh r [] h = ground (arith, ==_self r.token.id, ==_self r.token.program)
find-fresh r (x ∷ rs) h = ground (arith, find-fresh r rs)

module _ {V : Type 0} where
  -- A capability that `effect` gives out is new: with all tokens so far below the counter, it is the
  -- token of no effect and of no Source declared before. In the Program that the builder makes then it
  -- is declared for exactly the type it was asked for, and all tokens are below the counter again.
  pub effect-declares :
      (type other : TypeId) (name : TypeName) (b : ProgramBuilder V)
      → AreBelow b.next_capability b.effect_requirements
      → SourcesBelow b.next_capability b.source_requirements
      → All (λ r. same_as r.token (effect type name b).0 ≡ false) b.effect_requirements
        × All (λ r. same_as r.token (effect type name b).0 ≡ false) b.source_requirements
        × (declares_effect (finish (effect type name b).1) (effect type name b).0 other
            ≡ (type == other))
        × AreBelow (effect type name b).1.next_capability (effect type name b).1.effect_requirements
        × SourcesBelow
            (effect type name b).1.next_capability
            (effect type name b).1.source_requirements
  unfolding effect finish declares_effect effect_requirement next_capability belongs_to
  effect-declares type other name b h g =
      let new : EffectRequirement = record {
        token = record { id = b.next_capability; program = b.program };
        descriptor_type = type;
        descriptor_type_name = name;
      } in
      (
        All-mono b.effect_requirements (λ r l. larger-other r.token new.token l) h,
        All-mono b.source_requirements (λ r l. larger-other r.token new.token l) g,
        rw (==_self b.program, find-fresh new b.effect_requirements h) refl,
        All-snoc (λ r. r.token.id < suc b.next_capability) b.effect_requirements new
            (All-mono b.effect_requirements (λ r l. omega arith) h) (omega arith),
        All-mono b.source_requirements (λ r l. omega arith) g,
      )
