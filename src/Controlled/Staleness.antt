-- ===== src/Controlled/Staleness.antt =====
-- Work of a Source that was cancelled or replaced is stale.
use samara.Prelude.{
  ℕ, suc, ◌≡◌, ◌<◌, refl, Bool, true, false, not, Bool-cases, Option, inl, inr, List, [], ◌∷◌, ◌++◌,
  ◌==◌, find, remove_first, is_some_and, if_ind, option_ind, length, arith, Rises, Rises-le,
}
use samara.Values.{TypeId, TypeName, TraceId}
use samara.Ids.{ComponentId, SubscriptionId}
use samara.Errors.{FaultReason, RuntimeError, Result}
use samara.Source.{accepts_output_event_type}
use samara.Program.{declares_source_plan}
use samara.Subscription.{Subscription, source_plan}
use samara.Reconciler.{SubscriptionChange}
use samara.Controlled.State.{SubscriptionAction, SourceStamp, ActiveSource, ControlledCore}
use samara.Controlled.Trace.{push_trace, push_child, set_fault, fail_with}
use samara.Controlled.Sources.{
  is_source, lifecycle, source_stamp_is_current, new_source, terminal_is_controlled,
  activate_source, remove_source, apply_change,
}
use samara.Controlled.Invariant.{Inv}

module _ {V : Type 0} where
  abbrev has_generation : ComponentId → SubscriptionId → ℕ → List (ActiveSource V) → Bool
  has_generation component id generation sources =
      is_some_and (find (is_source component id) sources) (λ s. s.stamp.generation == generation)

  above :
      (component : ComponentId) (id : SubscriptionId) (generation lo : ℕ)
      (sources : List (ActiveSource V)) (hi : ℕ)
      → Rises (λ s. s.stamp.generation) lo sources hi
      → generation < lo
      → has_generation component id generation sources ≡ false
  above component id generation lo [] hi h l = refl
  above component id generation lo (s ∷ sources) hi h l =
      ground
        (arith, above component id generation (suc s.stamp.generation) sources hi h.1 (omega arith))

  -- Generations rise, so a later Source under the same identity has another generation.
  removed :
      (component : ComponentId) (id : SubscriptionId) (generation lo : ℕ)
      (sources : List (ActiveSource V)) (hi : ℕ)
      → Rises (λ s. s.stamp.generation) lo sources hi
      → has_generation component id generation sources ≡ true
      → has_generation component id generation (remove_first (is_source component id) sources)
        ≡ false
  removed component id generation lo [] hi h e = cc
  removed component id generation lo (s ∷ sources) hi h e =
      elim (Bool-cases (is_source component id s)) [
        | inl f ↦
            rw f
              (above component id generation (suc s.stamp.generation) sources hi h.1 (ground arith))
        | inr f ↦ rw f (
            rw f (
              removed component id generation (suc s.stamp.generation) sources hi h.1
                (ground arith)))
      ]

  -- A Source that is appended under a fresh generation does not make an old one current.
  appended :
      (component : ComponentId) (id : SubscriptionId) (generation : ℕ)
      (sources : List (ActiveSource V)) (new : ActiveSource V)
      → has_generation component id generation sources ≡ false
      → generation < new.stamp.generation
      → has_generation component id generation (sources ++ new ∷ []) ≡ false
  appended component id generation [] new h l = ground arith
  appended component id generation (s ∷ sources) new h l =
      ground (arith, appended component id generation sources new)

  current_below :
      (component : ComponentId) (id : SubscriptionId) (generation lo : ℕ)
      (sources : List (ActiveSource V)) (hi : ℕ)
      → Rises (λ s. s.stamp.generation) lo sources hi
      → has_generation component id generation sources ≡ true
      → generation < hi
  current_below component id generation lo [] hi h e = cc
  current_below component id generation lo (s ∷ sources) hi h e =
      elim (Bool-cases (is_source component id s)) [
        | inl f ↦
            let up = Rises-le (λ s. s.stamp.generation) (suc s.stamp.generation) sources hi h.1 in
            ground arith
        | inr f ↦
            current_below component id generation (suc s.stamp.generation) sources hi h.1
              (ground arith)
      ]

  fail_with-stale :
      (component : ComponentId) (type : Option TypeName) (work : TraceId) (reason : FaultReason)
      (stamp : SourceStamp) (c : ControlledCore V)
      → has_generation stamp.component stamp.subscription stamp.generation c.sources ≡ false
      → source_stamp_is_current stamp (fail_with {A = Unit} component type work reason c).1 ≡ false
  unfolding source_stamp_is_current set_fault push_trace
  fail_with-stale component type work reason stamp c h =
      option_ind
        (λ (r : RuntimeError × ControlledCore V). source_stamp_is_current stamp r.1 ≡ false) c.fault
        (λ _. h) (λ error _. h)

  activate_source-stale :
      (component : ComponentId) (s : Subscription V) (mt : TypeId) (mn : TypeName) (work : TraceId)
      (stamp : SourceStamp) (c : ControlledCore V)
      → has_generation stamp.component stamp.subscription stamp.generation c.sources ≡ false
      → stamp.generation < c.next_generation
      → source_stamp_is_current stamp (activate_source component s mt mn work c).1 ≡ false
  unfolding activate_source source_stamp_is_current new_source
  activate_source-stale component s mt mn work stamp c h l =
      let plan = source_plan s in
      let Stale : Result Unit × ControlledCore V → Type 0 =
        λ r. source_stamp_is_current stamp r.1 ≡ false in
      if_ind Stale (not (accepts_output_event_type plan s.source_event_type))
        (λ _. fail_with-stale component _ work _ stamp c h)
        λ _.
          if_ind Stale
            (not
              (declares_source_plan c.program plan.capability s.descriptor_type plan.terminal_type))
            (λ _. fail_with-stale component _ work _ stamp c h)
            λ _.
              if_ind Stale (not (terminal_is_controlled plan c))
                (λ _. fail_with-stale component _ work _ stamp c h)
                (λ _.
                  appended stamp.component stamp.subscription stamp.generation c.sources
                    (new_source component s mt mn c.next_generation) h l)

  -- A Source that is cancelled loses its work: on a well-formed core, a stamp that was current is not
  -- current any more once its subscription is cancelled.
  pub cancel-stale :
      (stamp : SourceStamp) (mt : TypeId) (mn : TypeName) (cause : TraceId) (c : ControlledCore V)
      → Inv c
      → source_stamp_is_current stamp c ≡ true
      → source_stamp_is_current stamp
          (apply_change stamp.component mt mn cause
            (SubscriptionChange.cancel stamp.subscription)
            c).1
        ≡ false
  unfolding apply_change source_stamp_is_current remove_source push_trace
  cancel-stale stamp mt mn cause c v h =
      removed stamp.component stamp.subscription stamp.generation 0 c.sources c.next_generation
        v.generations h

  -- A Source that is replaced loses its work: on a well-formed core, a stamp that was current is not
  -- current any more once its subscription is replaced, whether the new Source, which carries a
  -- generation of its own, can be activated or not.
  pub replace-stale :
      (stamp : SourceStamp) (s : Subscription V) (mt : TypeId) (mn : TypeName) (cause : TraceId)
      (c : ControlledCore V)
      → Inv c
      → s.id ≡ stamp.subscription
      → source_stamp_is_current stamp c ≡ true
      → source_stamp_is_current stamp
          (apply_change stamp.component mt mn cause (SubscriptionChange.replace s) c).1
        ≡ false
  unfolding apply_change source_stamp_is_current remove_source push_trace
  replace-stale stamp s mt mn cause c v same h =
      let gone : has_generation stamp.component stamp.subscription stamp.generation
            (remove_first (is_source stamp.component s.id) c.sources)
          ≡ false =
        rw same (
          removed stamp.component stamp.subscription stamp.generation 0 c.sources c.next_generation
            v.generations h) in
      activate_source-stale stamp.component s mt mn (length c.trace) stamp
        (remove_source stamp.component s.id
          (push_child cause
            (lifecycle stamp.component s.id s.descriptor_type_name SubscriptionAction.replaced)
            c).1)
        gone
        (current_below stamp.component stamp.subscription stamp.generation 0 c.sources
          c.next_generation v.generations h)
