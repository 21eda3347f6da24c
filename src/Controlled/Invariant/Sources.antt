-- ===== src/Controlled/Invariant/Sources.antt =====
-- Source activation and reconciliation changes keep the invariant.
use samara.Prelude.{
  suc, ◌<◌, refl, not, some, List, [], ◌∷◌, ◌++◌, length, if_ind, arith, Rises-snoc,
  Rises-remove_first, Rises-update_first,
}
use samara.Values.{TypeId, TypeName, TraceId}
use samara.Ids.{ComponentId, SubscriptionId}
use samara.Errors.{ok}
use samara.Source.{accepts_output_event_type}
use samara.Subscription.{Subscription, source_plan}
use samara.Reconciler.{SubscriptionChange}
use samara.Program.{declares_source_plan}
use samara.Controlled.State.{ControlledCore}
use samara.Controlled.Sources.{
  is_source, new_source, terminal_is_controlled, activate_source, sort_changes, remove_source,
  adopt_subscription, apply_change, apply_each, apply_subscription_changes,
}
use samara.Controlled.Invariant.{Inv, Good}
use samara.Controlled.Invariant.Rules.{
  fail_with-Good, ok-Good, Good-after, push_trace-Good, and_then-Good,
}

module _ {V : Type 0} where
  remove_source-Inv :
      (component : ComponentId) (id : SubscriptionId) (c : ControlledCore V)
      → Inv c
      → Inv (remove_source component id c)
  unfolding remove_source
  remove_source-Inv component id c v = record {
    causal = v.causal;
    chronological = v.chronological;
    work_caused = v.work_caused;
    effects_requested = v.effects_requested;
    tickets = v.tickets;
    effect_ids = v.effect_ids;
    correlations = v.correlations;
    generations =
        Rises-remove_first (λ s. s.stamp.generation) (is_source component id) 0 c.sources
          c.next_generation v.generations;
    replies_mapped = v.replies_mapped;
  }

  adopt_subscription-Inv :
      (component : ComponentId) (s : Subscription V) (mt : TypeId) (mn : TypeName)
      (c : ControlledCore V)
      → Inv c
      → Inv (adopt_subscription component s mt mn c)
  unfolding adopt_subscription
  adopt_subscription-Inv component s mt mn c v = record {
    causal = v.causal;
    chronological = v.chronological;
    work_caused = v.work_caused;
    effects_requested = v.effects_requested;
    tickets = v.tickets;
    effect_ids = v.effect_ids;
    correlations = v.correlations;
    generations =
        Rises-update_first (λ s. s.stamp.generation) (is_source component s.id) _ 0 c.sources
          c.next_generation (λ x. refl) v.generations;
    replies_mapped = v.replies_mapped;
  }

  push_source-Inv :
      (component : ComponentId) (s : Subscription V) (mt : TypeId) (mn : TypeName)
      (c : ControlledCore V)
      → Inv c
      → Inv (record c {
        next_generation = suc c.next_generation;
        sources = c.sources ++ new_source component s mt mn c.next_generation ∷ [];
      })
  unfolding new_source
  push_source-Inv component s mt mn c v = record {
    causal = v.causal;
    chronological = v.chronological;
    work_caused = v.work_caused;
    effects_requested = v.effects_requested;
    tickets = v.tickets;
    effect_ids = v.effect_ids;
    correlations = v.correlations;
    generations =
        Rises-snoc (λ s. s.stamp.generation) 0 c.sources _ c.next_generation v.generations refl;
    replies_mapped = v.replies_mapped;
  }

  pub activate_source-Good :
      (component : ComponentId) (s : Subscription V) (mt : TypeId) (mn : TypeName) (work : TraceId)
      (c : ControlledCore V)
      → Inv c
      → work < length c.trace
      → Good c (activate_source component s mt mn work c)
  unfolding activate_source
  activate_source-Good component s mt mn work c v p =
      let plan = source_plan s in
      if_ind (Good c) (not (accepts_output_event_type plan s.source_event_type))
        (λ _. fail_with-Good _ _ _ _ c v p)
        λ _.
          if_ind (Good c)
            (not
              (declares_source_plan c.program plan.capability s.descriptor_type plan.terminal_type))
            (λ _. fail_with-Good _ _ _ _ c v p)
            λ _.
              if_ind (Good c) (not (terminal_is_controlled plan c))
                (λ _. fail_with-Good _ _ _ _ c v p)
                λ _. ok-Good tt c _ (push_source-Inv component s mt mn c v) (omega arith)

  pub apply_change-Good :
      (component : ComponentId) (mt : TypeId) (mn : TypeName) (cause : TraceId)
      (change : SubscriptionChange V) (c : ControlledCore V)
      → Inv c
      → cause < length c.trace
      → Good c (apply_change component mt mn cause change c)
  unfolding apply_change
  apply_change-Good component mt mn cause (SubscriptionChange.start s) c v p =
      push_trace-Good (some cause) _ c (λ work c1. activate_source component s mt mn work c1) v p
        λ work c1 v1 w g. activate_source-Good component s mt mn work c1 v1 w
  apply_change-Good component mt mn cause (SubscriptionChange.retain s) c v p =
      push_trace-Good (some cause) _ c (λ work c1. (ok tt, adopt_subscription component s mt mn c1))
        v p
        λ work c1 v1 w g.
          ok-Good tt c1 _ (adopt_subscription-Inv component s mt mn c1 v1) (omega arith)
  apply_change-Good component mt mn cause (SubscriptionChange.replace s) c v p =
      push_trace-Good (some cause) _ c
        (λ work c1. activate_source component s mt mn work (remove_source component s.id c1)) v p
        λ work c1 v1 w g. Good-after c1 (remove_source component s.id c1) _ (omega arith) (
          activate_source-Good component s mt mn work _ (remove_source-Inv component s.id c1 v1)
            (omega arith))
  apply_change-Good component mt mn cause (SubscriptionChange.cancel id) c v p =
      push_trace-Good (some cause) _ c (λ work c1. (ok tt, remove_source component id c1)) v p
        λ work c1 v1 w g. ok-Good tt c1 _ (remove_source-Inv component id c1 v1) (omega arith)

  pub apply_each-Good :
      (component : ComponentId) (mt : TypeId) (mn : TypeName) (cause : TraceId)
      (list : List (SubscriptionChange V)) (c : ControlledCore V)
      → Inv c
      → cause < length c.trace
      → Good c (apply_each component mt mn cause list c)
  unfolding apply_each
  apply_each-Good component mt mn cause [] c v p = ok-Good tt c c v (omega arith)
  apply_each-Good component mt mn cause (change ∷ rest) c v p =
      and_then-Good c (apply_change component mt mn cause change c)
        (λ _ c'. apply_each component mt mn cause rest c')
        (apply_change-Good component mt mn cause change c v p)
        λ _ c' v' g. apply_each-Good component mt mn cause rest c' v' (omega arith)

  pub apply_subscription_changes-Good :
      (component : ComponentId) (mt : TypeId) (mn : TypeName) (list : List (SubscriptionChange V))
      (cause : TraceId) (c : ControlledCore V)
      → Inv c
      → cause < length c.trace
      → Good c (apply_subscription_changes component mt mn list cause c)
  unfolding apply_subscription_changes
  apply_subscription_changes-Good component mt mn list cause c v p =
      apply_each-Good component mt mn cause (sort_changes list) c v p
