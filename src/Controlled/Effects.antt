-- ===== src/Controlled/Effects.antt =====
-- The ownership of effects: `next_effect` hands out a token, which `complete` takes.
use samara.Prelude.{
  not_both, not, if_ind, ◌≢◌, suc, Rises, find-above, some-same, Bool-cases, inl, inr, both,
  All-find, length, ℕ, ◌≡◌, refl, none, some, true, ◌==◌, find, update_first, List, [], ◌∷◌,
  is_some, option_ind, find_test, arith, ==_self,
}
use samara.Values.{TypeId, TraceId, EffectOutcome}
use samara.Errors.{Result, ok, err, panic}
use samara.Controlled.State.{PendingEffectEntry, ControlledCore}
use samara.Controlled.Harness.{
  PendingEffect, is_owned, is_unclaimed, claimed, next_effect, schedule_outcome, complete,
}
use samara.Controlled.Invariant.{Inv, held_type, IsRequested}

module _ {V : Type 0} where
  -- An outcome of the effect's own type meets no panic.
  schedule_outcome-ok :
      (e : PendingEffectEntry V) (type : TypeId) (outcome : EffectOutcome V) (cause : TraceId)
      (c : ControlledCore V)
      → (e.descriptor_type == type) ≡ true
      → (schedule_outcome e type outcome cause c).0 ≡ ok tt
  unfolding schedule_outcome
  schedule_outcome-ok e type outcome cause c t =
      option_ind (λ (r : Result Unit × ControlledCore V). r.0 ≡ ok tt) e.mapper (λ _. refl)
        (λ mapper _. rw t refl)

  -- With the effect in the table, and without a fault, the token is accepted.
  complete-present :
      (type : TypeId) (p : PendingEffect V) (outcome : EffectOutcome V) (c : ControlledCore V)
      → c.fault ≡ none
      → (p.program == c.program.program) ≡ true
      → is_some (find (is_owned p.id type) c.effects) ≡ true
      → (complete type p outcome c).0 ≡ ok tt
  unfolding complete
  complete-present type p outcome c f g h =
      rw (f, g)
        (option_ind (λ (r : Result Unit × ControlledCore V). r.0 ≡ ok tt)
          (find (is_owned p.id type) c.effects) (λ e. cc)
          λ e found.
            schedule_outcome-ok e type outcome _ _
              (both _ _ (find_test (is_owned p.id type) c.effects found)).1)

  find-claimed :
      (id : ℕ) (type : TypeId) (es : List (PendingEffectEntry V)) (e : PendingEffectEntry V)
      → find (is_unclaimed type) es ≡ some e
      → e.id ≡ id
      → is_some (find (is_owned id type) (update_first (is_unclaimed type) claimed es)) ≡ true
  find-claimed id type [] e h same = cc
  find-claimed id type (x ∷ es) e h same = ground (arith, find-claimed id type es e)

  abbrev pub Claimed :
      TypeId → EffectOutcome V → Result (PendingEffect V) × ControlledCore V → Type 0
  Claimed type outcome (ok p, c') = (complete type p outcome c').0 ≡ ok tt
  Claimed type outcome (err e, c') = Unit
  Claimed type outcome (panic, c') = ⊥

  -- On a well-formed core every token that `next_effect` hands out can be completed with any outcome
  -- on the core that it leaves, and `next_effect` never panics: neither is the descriptor gone nor is
  -- it of another type.
  pub complete-next_effect :
      (type : TypeId) (outcome : EffectOutcome V) (c : ControlledCore V)
      → Inv c
      → Claimed type outcome (next_effect type c)
  unfolding next_effect complete
  complete-next_effect type outcome c v =
      option_ind (Claimed type outcome) c.fault
        (λ f.
          option_ind (Claimed type outcome) (find (is_unclaimed type) c.effects) (λ _. tt)
            λ e found.
              option_ind (Claimed type outcome) e.descriptor
                (λ absent. let test = find_test (is_unclaimed type) c.effects found in ground arith)
                λ intent held.
                  let test = find_test (is_unclaimed type) c.effects found in
                  let own =
                    (All-find (IsRequested (length c.trace)) (is_unclaimed type) c.effects
                      v.effects_requested found).1 in
                  let agrees =
                    held_type e.descriptor_type type e.descriptor intent own held
                      (both _ _ test).0 in
                  rw agrees (
                    complete-present type
                      (record { intent = intent.payload; id = e.id; program = c.program.program })
                      outcome _ f (==_self c.program.program)
                      (find-claimed e.id type c.effects e found refl)))
        (λ error _. tt)

  find-other :
      (type type' : TypeId) (lo : ℕ) (es : List (PendingEffectEntry V)) (hi : ℕ)
      (e e' : PendingEffectEntry V)
      → Rises (λ e. e.id) lo es hi
      → find (is_unclaimed type) es ≡ some e
      → find (is_unclaimed type') (update_first (is_unclaimed type) claimed es) ≡ some e'
      → e'.id ≢ e.id
  find-other type type' lo [] hi e e' h f g = cc
  find-other type type' lo (x ∷ es) hi e e' h f g = elim (Bool-cases (is_unclaimed type x)) [
    | inl t ↦
        let first : x ≡ e = some-same (rw t at f) in
        elim (Bool-cases (is_unclaimed type' (claimed x))) [
          | inl u ↦ absurd (not_both (both _ _ u).1 refl)
          | inr u ↦
              let later =
                find-above (λ e. e.id) (is_unclaimed type') (suc x.id) es hi e' h.1
                  (rw (t, u) at g) in
              rw⁻¹ first (λ same. omega (arith, later, same))
        ]
    | inr t ↦ elim (Bool-cases (is_unclaimed type' x)) [
      | inl u ↦
          let second : x ≡ e' = some-same (rw (t, u) at g) in
          let later =
            find-above (λ e. e.id) (is_unclaimed type) (suc x.id) es hi e h.1 (rw t at f) in
          rw⁻¹ second (λ same. omega (arith, later, same))
      | inr u ↦ find-other type type' (suc x.id) es hi e e' h.1 (rw t at f) (rw (t, u) at g)
    ]
  ]

  abbrev OtherThan : PendingEffect V → Result (PendingEffect V) × ControlledCore V → Type 0
  OtherThan p (ok p', c') = p'.id ≢ p.id
  OtherThan p (err e, c') = Unit
  OtherThan p (panic, c') = Unit

  -- The token that a claim hands out differs from that of the claim before.
  abbrev pub ClaimsOther : TypeId → Result (PendingEffect V) × ControlledCore V → Type 0
  ClaimsOther type' (ok p, c') = OtherThan p (next_effect type' c')
  ClaimsOther type' (err e, c') = Unit
  ClaimsOther type' (panic, c') = Unit

  claimed_other :
      (type type' : TypeId) (c : ControlledCore V)
      → Inv c
      → (e : PendingEffectEntry V) (intent : V) → find (is_unclaimed type) c.effects ≡ some e
      → OtherThan
          (record { intent = intent; id = e.id; program = c.program.program })
          (next_effect type'
            (record c { effects = update_first (is_unclaimed type) claimed c.effects }))
  unfolding next_effect
  claimed_other type type' c v e intent found =
      let p : PendingEffect V = record {
        intent = intent;
        id = e.id;
        program = c.program.program;
      } in
      option_ind (OtherThan p) c.fault
        (λ _.
          option_ind (OtherThan p)
            (find (is_unclaimed type') (update_first (is_unclaimed type) claimed c.effects))
            (λ _. tt)
            λ e' found'.
              option_ind (OtherThan p) e'.descriptor (λ _. tt)
                λ intent' _.
                  if_ind (OtherThan p) (not (intent'.type_id == type')) (λ _. tt)
                    λ _.
                      find-other type type' 0 c.effects c.next_effect e e' v.effect_ids found
                        found')
        (λ error _. tt)

  -- An occurrence of an effect is claimed once: on a well-formed core, two claims in a row, of the same
  -- type or of two, never hand out the same effect.
  pub next_effect-once :
      (type type' : TypeId) (c : ControlledCore V) → Inv c → ClaimsOther type' (next_effect type c)
  unfolding next_effect
  next_effect-once type type' c v =
      option_ind (ClaimsOther type') c.fault
        (λ f.
          option_ind (ClaimsOther type') (find (is_unclaimed type) c.effects) (λ _. tt)
            λ e found.
              option_ind (ClaimsOther type') e.descriptor (λ _. tt)
                λ intent held.
                  if_ind (ClaimsOther type') (not (intent.type_id == type)) (λ _. tt)
                    λ _. claimed_other type type' c v e intent.payload found)
        (λ error _. tt)
