-- ===== src/Controlled/Sources.antt =====
-- Source bookkeeping of ControlledCore: activation, and the reconciliation changes of a Component.
use samara.Prelude.{
  ℕ, suc, Option, none, some, Bool, true, not, ◌&&◌, ◌||◌, List, [], ◌∷◌, ◌++◌, ◌==◌, any, find,
  remove_first, update_first, is_some_and, if◌then◌else◌,
}
use samara.Values.{TypeId, TypeName, TraceId, same_as}
use samara.Ids.{ComponentId, SubscriptionId, id_eq, id_leb}
use samara.Errors.{FaultReason, Result, ok, err, panic}
use samara.Source.{SourcePlan, accepts_output_event_type}
use samara.Subscription.{Subscription, source_plan}
use samara.Reconciler.{SubscriptionChange}
use samara.Program.{declares_source_plan}
use samara.Controlled.State.{
  SubscriptionAction, TraceEvent, SourceStamp, ActiveSource, ControlledCore,
}
use samara.Controlled.Trace.{push_trace, push_child, set_fault, fail_with}

abbrev pub lifecycle : ComponentId → SubscriptionId → TypeName → SubscriptionAction → TraceEvent
lifecycle component id name action = TraceEvent.subscription_lifecycle component id name action

module _ {V : Type 0} where
  abbrev pub is_source : ComponentId → SubscriptionId → ActiveSource V → Bool
  is_source component subscription s =
      id_eq s.stamp.component component && id_eq s.stamp.subscription subscription

  -- `source_index`, with the entry found there.
  abbrev pub source_at : ComponentId → SubscriptionId → ControlledCore V → Option (ActiveSource V)
  source_at component subscription c = find (is_source component subscription) c.sources

  unfoldable pub source_stamp_is_current : SourceStamp → ControlledCore V → Bool
  source_stamp_is_current stamp c =
      is_some_and (source_at stamp.component stamp.subscription c)
        (λ s. s.stamp.generation == stamp.generation)

  unfoldable pub terminal_is_controlled : SourcePlan V → ControlledCore V → Bool
  terminal_is_controlled plan c =
      any (λ t. t == plan.terminal_type) c.bindings.sources
      || any (λ token. same_as token plan.capability) c.bindings.exact_sources

  -- The entry that `activate_source` pushes, under a fresh generation.
  unfoldable pub new_source : ComponentId → Subscription V → TypeId → TypeName → ℕ → ActiveSource V
  unfolding source_plan
  new_source component subscription message_type message_type_name generation = record {
    stamp = record {
      component = component;
      subscription = subscription.id;
      generation = generation;
    };
    running = true;
    subscription = subscription;
    message_type = message_type;
    message_type_name = message_type_name;
    plan = source_plan subscription;
  }

  unfoldable pub activate_source :
      ComponentId
      → Subscription V
      → TypeId
      → TypeName
      → TraceId
      → ControlledCore V
      → Result Unit × ControlledCore V
  unfolding set_fault new_source terminal_is_controlled
  activate_source component subscription message_type message_type_name work c =
      let plan = source_plan subscription in
      if not (accepts_output_event_type plan subscription.source_event_type)
      then fail_with component (some plan.terminal_type_name) work FaultReason.plan_output_mismatch
          c
      else if not (
          declares_source_plan c.program plan.capability subscription.descriptor_type
            plan.terminal_type)
      then fail_with component (some plan.terminal_type_name) work FaultReason.undeclared_source c
      else if not (terminal_is_controlled plan c)
      then fail_with component (some plan.terminal_type_name) work FaultReason.uncontrolled_source c
      else (
        ok tt,
        record c {
          next_generation = suc c.next_generation;
          sources =
              c.sources
              ++ new_source component subscription message_type message_type_name c.next_generation
                ∷ [];
        },
      )

  abbrev pub change_id : SubscriptionChange V → SubscriptionId
  change_id (SubscriptionChange.start s) = s.id
  change_id (SubscriptionChange.retain s) = s.id
  change_id (SubscriptionChange.replace s) = s.id
  change_id (SubscriptionChange.cancel id) = id

  -- `sort_by` with the derived order of the identities: a stable sort.
  unfoldable pub insert_change :
      SubscriptionChange V → List (SubscriptionChange V) → List (SubscriptionChange V)
  insert_change x [] = x ∷ []
  insert_change x (y ∷ ys) =
      if id_leb (change_id x) (change_id y) then x ∷ y ∷ ys else y ∷ insert_change x ys

  unfoldable pub sort_changes : List (SubscriptionChange V) → List (SubscriptionChange V)
  unfolding insert_change
  sort_changes [] = []
  sort_changes (x ∷ xs) = insert_change x (sort_changes xs)

  unfoldable pub remove_source : ComponentId → SubscriptionId → ControlledCore V → ControlledCore V
  remove_source component subscription c = record c {
    sources = remove_first (is_source component subscription) c.sources;
  }

  -- The latest mapper and descriptor projection; stamp, plan and Layer state stay.
  unfoldable pub adopt_subscription :
      ComponentId → Subscription V → TypeId → TypeName → ControlledCore V → ControlledCore V
  adopt_subscription component s message_type message_type_name c = record c {
    sources =
        update_first (is_source component s.id)
          (λ old. record old {
            subscription = s;
            message_type = message_type;
            message_type_name = message_type_name;
          })
          c.sources;
  }

  -- `unwrap_or("<inactive>")`.
  abbrev source_name : Option (ActiveSource V) → TypeName
  source_name none = "<inactive>"
  source_name (some s) = s.subscription.descriptor_type_name

  -- One round of the loop of `apply_subscription_changes`.
  unfoldable pub apply_change :
      ComponentId
      → TypeId
      → TypeName
      → TraceId
      → SubscriptionChange V
      → ControlledCore V
      → Result Unit × ControlledCore V
  unfolding activate_source remove_source adopt_subscription push_trace
  apply_change component mt mn cause (SubscriptionChange.start s) c =
      let (work, c1) =
        push_child cause
          (lifecycle component s.id s.descriptor_type_name SubscriptionAction.started) c in
      activate_source component s mt mn work c1
  apply_change component mt mn cause (SubscriptionChange.retain s) c =
      let (work, c1) =
        push_child cause
          (lifecycle component s.id s.descriptor_type_name SubscriptionAction.retained) c in
      (ok tt, adopt_subscription component s mt mn c1)
  apply_change component mt mn cause (SubscriptionChange.replace s) c =
      let (work, c1) =
        push_child cause
          (lifecycle component s.id s.descriptor_type_name SubscriptionAction.replaced) c in
      activate_source component s mt mn work (remove_source component s.id c1)
  apply_change component mt mn cause (SubscriptionChange.cancel id) c =
      let name = source_name (source_at component id c) in
      let (work, c1) =
        push_child cause (lifecycle component id name SubscriptionAction.cancelled) c in
      (ok tt, remove_source component id c1)

  -- The `?` of a loop body: an error ends the loop.
  abbrev pub and_then :
      {A B : Type 0}
      → Result A × ControlledCore V
      → (A → ControlledCore V → Result B × ControlledCore V)
      → Result B × ControlledCore V
  and_then (ok a, c) f = f a c
  and_then (err e, c) f = (err e, c)
  and_then (panic, c) f = (panic, c)

  unfoldable pub apply_each :
      ComponentId
      → TypeId
      → TypeName
      → TraceId
      → List (SubscriptionChange V)
      → ControlledCore V
      → Result Unit × ControlledCore V
  unfolding apply_change
  apply_each component mt mn cause [] c = (ok tt, c)
  apply_each component mt mn cause (change ∷ rest) c =
      and_then (apply_change component mt mn cause change c)
        (λ _ c'. apply_each component mt mn cause rest c')

  unfoldable pub apply_subscription_changes :
      ComponentId
      → TypeId
      → TypeName
      → List (SubscriptionChange V)
      → TraceId
      → ControlledCore V
      → Result Unit × ControlledCore V
  unfolding sort_changes apply_each
  apply_subscription_changes component mt mn changes cause c =
      apply_each component mt mn cause (sort_changes changes) c
