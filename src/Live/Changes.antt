-- ===== src/Live/Changes.antt =====
-- LiveCore: stopping Sources, the drain cutoff and `apply_subscription_changes`.
use samara.Prelude.{
  Option, none, some, Bool, true, false, ◌&&◌, List, [], ◌∷◌, ◌++◌, remove_first, update_first,
  if◌then◌else◌,
}
use samara.Values.{TypeId, TypeName, TraceId}
use samara.Ids.{ComponentId, SubscriptionId}
use samara.Errors.{Result, ok}
use samara.Subscription.{Subscription}
use samara.Reconciler.{SubscriptionChange}
use samara.Controlled.Sources.{sort_changes}
use samara.Live.State.{LiveSource, LiveCore}
use samara.Live.Scope.{is_draining}
use samara.Live.Tasks.{Live, interfere}
use samara.Live.Sources.{
  then_live, with_core, next_work, is_live_source, live_source_at, activate_live, stop_entry,
  stop_mechanism, stop_result,
}

module _ {V : Type 0} where
  abbrev pub set_sources : List (LiveSource V) → LiveCore V → LiveCore V
  set_sources sources c = record c { sources = sources }

  -- `stop_source`, at the entry of a Subscription.
  unfoldable pub stop_source :
      ComponentId → LiveSource V → Bool → TraceId → Live V → Result Unit × Live V
  unfolding stop_mechanism
  stop_source component s retain work l =
      let (stopped, l1) = stop_mechanism s l in
      stop_result stopped s work (
        with_core
          (λ c.
            set_sources
              (update_first (is_live_source component s.stamp.subscription) (stop_entry retain)
                c.sources)
              c)
          l1)

  -- `stop_source` at each index in turn; `done` are the entries before it.
  unfoldable pub stop_each :
      Bool → List (LiveSource V) → List (LiveSource V) → Live V → Result Unit × Live V
  unfolding stop_mechanism next_work
  stop_each retain done [] l = (ok tt, l)
  stop_each retain done (s ∷ rest) l =
      let (stopped, l1) = stop_mechanism s (with_core next_work l) in
      then_live
        (stop_result stopped s l.core.next_work
          (with_core (set_sources (done ++ stop_entry retain s ∷ rest)) l1))
        (λ _ l2. stop_each retain (done ++ stop_entry retain s ∷ []) rest l2)

  unfoldable pub begin_drain : Live V → Result Unit × Live V
  unfolding stop_each
  begin_drain l =
      if l.core.draining
      then (ok tt, l)
      else stop_each true [] l.core.sources (with_core (λ c. record c { draining = true }) l)

  unfoldable pub observe_drain_cutoff : Live V → Result Unit × Live V
  unfolding interfere is_draining begin_drain
  observe_drain_cutoff l =
      if l.core.draining
      then (ok tt, l)
      else (let l1 = interfere l in
          if is_draining l1.scope.phase then begin_drain l1 else (ok tt, l1))

  abbrev pub drop_source : ComponentId → SubscriptionId → LiveCore V → LiveCore V
  drop_source component id c = record c {
    sources = remove_first (is_live_source component id) c.sources;
  }

  -- `stop_source` and `remove`.
  unfoldable pub discard_source :
      ComponentId → LiveSource V → TraceId → Live V → Result Unit × Live V
  unfolding stop_source
  discard_source component s work l =
      then_live (stop_source component s false work l)
        (λ _ l1. (ok tt, with_core (drop_source component s.stamp.subscription) l1))

  -- The latest mapper; stamp, plan and Layer state stay.
  unfoldable pub adopt_live :
      ComponentId → Subscription V → TypeId → TypeName → LiveCore V → LiveCore V
  adopt_live component s mt mn c = record c {
    sources =
        update_first (is_live_source component s.id)
          (λ old. record old { subscription = s; message_type = mt; message_type_name = mn })
          c.sources;
  }

  -- The rest of a Replace whose entry is `found`.
  unfoldable pub replace_live :
      ComponentId
      → Subscription V
      → TypeId
      → TypeName
      → TraceId
      → Option (LiveSource V)
      → Live V
      → Result Unit × Live V
  unfolding activate_live discard_source
  replace_live component sub mt mn work none l = activate_live component sub mt mn work l
  replace_live component sub mt mn work (some s) l =
      if l.core.draining && s.drain_retained
      then (ok tt, l)
      else then_live (discard_source component s work l)
          (λ _ l1. activate_live component sub mt mn work l1)

  unfoldable pub cancel_live :
      ComponentId → TraceId → Option (LiveSource V) → Live V → Result Unit × Live V
  unfolding discard_source
  cancel_live component work none l = (ok tt, l)
  cancel_live component work (some s) l =
      if l.core.draining && s.drain_retained then (ok tt, l) else discard_source component s work l

  -- The match of one round of the loop.
  unfoldable pub change_live :
      ComponentId
      → TypeId
      → TypeName
      → TraceId
      → SubscriptionChange V
      → Live V
      → Result Unit × Live V
  unfolding activate_live adopt_live replace_live cancel_live
  change_live component mt mn work (SubscriptionChange.start s) l =
      activate_live component s mt mn work l
  change_live component mt mn work (SubscriptionChange.retain s) l =
      (ok tt, with_core (adopt_live component s mt mn) l)
  change_live component mt mn work (SubscriptionChange.replace s) l =
      replace_live component s mt mn work (live_source_at component s.id l.core) l
  change_live component mt mn work (SubscriptionChange.cancel id) l =
      cancel_live component work (live_source_at component id l.core) l

  unfoldable pub change_each :
      ComponentId
      → TypeId
      → TypeName
      → TraceId
      → List (SubscriptionChange V)
      → Live V
      → Result Unit × Live V
  unfolding observe_drain_cutoff change_live
  change_each component mt mn work [] l = (ok tt, l)
  change_each component mt mn work (change ∷ rest) l = then_live (observe_drain_cutoff l) (λ _ l1.
      then_live (change_live component mt mn work change l1)
        (λ _ l2. change_each component mt mn work rest l2))

  -- `apply_subscription_changes`.
  unfoldable pub change_all :
      ComponentId
      → TypeId
      → TypeName
      → List (SubscriptionChange V)
      → TraceId
      → Live V
      → Result Unit × Live V
  unfolding sort_changes change_each
  change_all component mt mn changes work l =
      change_each component mt mn work (sort_changes changes) l
