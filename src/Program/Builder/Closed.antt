-- ===== src/Program/Builder/Closed.antt =====
-- Which Programs `build` accepts.
use samara.Prelude.{
  ◌≡◌, ◌↔◌, refl, Bool, true, false, Option, none, some, List, [], ◌∷◌, All, any, ◌==◌, arith, ap,
}
use samara.Values.{ProgramRef}
use samara.Ids.{ComponentId, id_eq}
use samara.Errors.{ProgramBuildError}
use samara.Kernel.{ComponentKernel}
use samara.Program.{Program, PortBinding}
use samara.Program.Builder.{
  PortDeclaration, ProgramBuilder, Built, built, same_port, check_ports, check_components,
  is_provider, check_bindings, binding_count, check_counts, refuse_or, finish, build,
}

-- Pairwise no two elements that the test takes for the same.
abbrev pub AreDistinct {ℓ} : {A : Type ℓ} → (A → A → Bool) → List A → Type 0
AreDistinct same [] = Unit
AreDistinct same (x ∷ xs) = All (λ y. same x y ≡ false) xs × AreDistinct same xs

-- No element of the second list is the same as one of the first.
abbrev AreNew {ℓ} : {A : Type ℓ} → (A → A → Bool) → List A → List A → Type 0
AreNew same seen xs = All (λ x. any (λ y. same y x) seen ≡ false) xs

AreNew-cons :
    {A : Type 0} (same : A → A → Bool) (x : A) (seen xs : List A)
    → AreNew same (x ∷ seen) xs ↔ (AreNew same seen xs × All (λ y. same x y ≡ false) xs)
AreNew-cons same x seen [] = ground arith
AreNew-cons same x seen (y ∷ xs) = ground (arith, AreNew-cons same x seen xs)

refuse_or-built :
    {V : Type 0} (e : Option ProgramBuildError) (r : Built V) (p : Program V)
    → (refuse_or e r ≡ built p) ↔ ((e ≡ none) × (r ≡ built p))
refuse_or-built none r p = ground arith
refuse_or-built (some e) r p = ground arith

abbrev pub IsOurs : ProgramRef → PortDeclaration → Type 0
IsOurs program p = (p.program == program) ≡ true

check_ports-none :
    (program : ProgramRef) (seen ports : List PortDeclaration)
    → (check_ports program seen ports ≡ none)
      ↔ (AreNew same_port seen ports × AreDistinct same_port ports × All (IsOurs program) ports)
unfolding check_ports
check_ports-none program seen [] = ground arith
check_ports-none program seen (p ∷ ports) =
    ground (arith, AreNew-cons same_port p seen ports, check_ports-none program (p ∷ seen) ports)

nothing_new : (ports : List PortDeclaration) → AreNew same_port [] ports
nothing_new [] = tt
nothing_new (p ∷ ports) = (refl, nothing_new ports)

module _ {V : Type 0} where
  abbrev same_id : ComponentKernel V → ComponentKernel V → Bool
  same_id j k = id_eq j.id k.id

  abbrev pub IsProvided : ProgramRef → List (ComponentKernel V) → PortBinding V → Type 0
  IsProvided program components b =
      ((b.port_program == program) ≡ true)
      × ((b.provider_program == program) ≡ true)
      × (any (is_provider b) components ≡ true)

  check_bindings-none :
      (program : ProgramRef) (components : List (ComponentKernel V)) (bs : List (PortBinding V))
      → (check_bindings program components bs ≡ none) ↔ All (IsProvided program components) bs
  unfolding check_bindings
  check_bindings-none program components [] = ground arith
  check_bindings-none program components (b ∷ bs) =
      ground (arith, check_bindings-none program components bs)

  check_counts-none :
      (bs : List (PortBinding V)) (ports : List PortDeclaration)
      → (check_counts bs ports ≡ none) ↔ All (λ p. binding_count p bs ≡ 1) ports
  unfolding check_counts
  check_counts-none bs [] = ground arith
  check_counts-none bs (p ∷ ports) = ground (arith, check_counts-none bs ports)

  check_components-none :
      (seen : List ComponentId) (ks : List (ComponentKernel V))
      → (check_components seen ks ≡ none)
        ↔ (All (λ k. any (λ id. id_eq id k.id) seen ≡ false) ks × AreDistinct same_id ks)
  unfolding check_components
  check_components-none seen [] = ground arith
  check_components-none seen (k ∷ ks) =
      ground (arith, seen_cons k.id seen ks, check_components-none (k.id ∷ seen) ks)
    where
      seen_cons :
          (id : ComponentId) (seen : List ComponentId) (ks : List (ComponentKernel V))
          → All (λ k. any (λ x. id_eq x k.id) (id ∷ seen) ≡ false) ks ↔ (
              All (λ k. any (λ x. id_eq x k.id) seen ≡ false) ks
              × All (λ k. id_eq id k.id ≡ false) ks)
      seen_cons id seen [] = ground arith
      seen_cons id seen (k ∷ ks) = ground (arith, seen_cons id seen ks)

  nothing_seen :
      (ks : List (ComponentKernel V)) → All (λ k. any (λ id. id_eq id k.id) [] ≡ false) ks
  nothing_seen [] = tt
  nothing_seen (k ∷ ks) = (refl, nothing_seen ks)

  -- What makes a builder's Program closed.
  pub record IsClosed (b : ProgramBuilder V) : Type 0 where
    pub distinct_components : AreDistinct same_id b.components
    pub distinct_ports : AreDistinct same_port b.ports
    pub our_ports : All (IsOurs b.program) b.ports
    pub provided : All (IsProvided b.program b.components) b.bindings
    pub bound_once : All (λ p. binding_count p b.bindings ≡ 1) b.ports

  -- `build` accepts a builder exactly if its Component identities are distinct, its Ports are
  -- distinct and its own, each binding names a Port of this Program and a registered provider, and each
  -- Port has exactly one binding; the Program that it makes then is the builder's declarations.
  pub build-IsClosed :
      (b : ProgramBuilder V) (p : Program V) → (build b ≡ built p) ↔ (IsClosed b × (finish b ≡ p))
  unfolding build
  build-IsClosed b p =
      let components = check_components-none [] b.components in
      let ports = check_ports-none b.program [] b.ports in
      let bindings = check_bindings-none b.program b.components b.bindings in
      let counts = check_counts-none b.bindings b.ports in
      (
        λ h.
            let h1 = (refuse_or-built (check_components [] b.components) _ p).0 h in
            let h2 = (refuse_or-built (check_ports b.program [] b.ports) _ p).0 h1.1 in
            let h3 =
              (refuse_or-built (check_bindings b.program b.components b.bindings) _ p).0 h2.1 in
            let h4 = (refuse_or-built (check_counts b.bindings b.ports) _ p).0 h3.1 in
            (
              record {
                distinct_components = (components.0 h1.0).1;
                distinct_ports = (ports.0 h2.0).1;
                our_ports = (ports.0 h2.0).2;
                provided = bindings.0 h3.0;
                bound_once = counts.0 h4.0;
              },
              cc,
            ),
        λ c.
            let k = c.0 in
            (refuse_or-built (check_components [] b.components) _ p).1 (
              components.1 (nothing_seen b.components, k.distinct_components),
              (refuse_or-built (check_ports b.program [] b.ports) _ p).1 (
                ports.1 (nothing_new b.ports, k.distinct_ports, k.our_ports),
                (refuse_or-built (check_bindings b.program b.components b.bindings) _ p).1 (
                  bindings.1 k.provided,
                  (refuse_or-built (check_counts b.bindings b.ports) _ p).1
                      (counts.1 k.bound_once, ap Built.built c.1),
                ),
              ),
            ),
      )
