-- ===== src/Live/Steps/Sources.antt =====
-- Source bookkeeping is made of actions.
use samara.Prelude.{
  ◌≡◌, refl, sym, ◌∙◌, ap, Option, none, some, Bool, true, false, not, ◌&&◌, List, [], ◌∷◌, ◌++◌,
  append_assoc, if_ind, option_ind,
}
use samara.Values.{TypeId, TypeName, TraceId}
use samara.Ids.{ComponentId}
use samara.Errors.{Result}
use samara.Source.{accepts_output_event_type}
use samara.Subscription.{Subscription, source_plan}
use samara.Reconciler.{SubscriptionChange}
use samara.Program.{declares_source_plan}
use samara.Controlled.Sources.{sort_changes}
use samara.Live.State.{Reason, LiveSource, SourceBinding}
use samara.Live.Scope.{is_running, is_draining}
use samara.Live.Tasks.{Live, HostStep, interfere_with, interfere}
use samara.Live.Bindings.{SourceMatch, source_binding}
use samara.Live.Sources.{
  then_live, with_core, is_live_source, live_source_at, start_source, start_matched, admit_source,
  next_work, activate_live, stop_entry, stop_mechanism, stop_result,
}
use samara.Live.Changes.{
  stop_source, stop_each, begin_drain, observe_drain_cutoff, discard_source, adopt_live,
  replace_live, cancel_live, change_live, change_each, change_all,
}
use samara.Live.Steps.{Step, Run, Runs}
use samara.Live.Steps.Rules.{Run-trans, one, interfere-Run, then_live-Runs}

not_lem : (b : Bool) → not b ≡ false → b ≡ true
not_lem true e = refl
not_lem false e = cc

module _ {V : Type 0} where
  interfere_with-core :
      (schedule : List (List (HostStep V))) (l : Live V) → (interfere_with schedule l).core ≡ l.core
  unfolding interfere_with
  interfere_with-core [] l = refl
  interfere_with-core (steps ∷ rest) l = refl

  pub interfere-core : (l : Live V) → (interfere l).core ≡ l.core
  unfolding interfere
  interfere-core l = interfere_with-core l.schedule l

  start_source-Runs :
      (component : ComponentId) (s : Subscription V) (mt : TypeId) (mn : TypeName) (work : TraceId)
      (b : SourceBinding V) (l : Live V)
      → l.core.draining ≡ false
      → is_running l.scope.phase ≡ true
      → Runs l (start_source component s mt mn work b l)
  unfolding start_source
  start_source-Runs component s mt mn work b l hd hr =
      option_ind (Runs l) (b.start (source_plan s).terminal)
        (λ _. one (Step.failed_start component s _ hd hr))
        (λ hook _. one (Step.opened component s mt mn work hook hd hr))

  start_matched-Runs :
      (component : ComponentId) (s : Subscription V) (mt : TypeId) (mn : TypeName) (work : TraceId)
      (found : SourceMatch V) (l : Live V)
      → l.core.draining ≡ false
      → is_running l.scope.phase ≡ true
      → Runs l (start_matched component s mt mn work found l)
  unfolding start_matched
  start_matched-Runs component s mt mn work (SourceMatch.unmatched reason) l hd hr = Run.stay
  start_matched-Runs component s mt mn work (SourceMatch.matched b) l hd hr =
      start_source-Runs component s mt mn work b l hd hr

  admit_source-Runs :
      (component : ComponentId) (s : Subscription V) (mt : TypeId) (mn : TypeName) (work : TraceId)
      (l : Live V)
      → l.core.draining ≡ false
      → is_running l.scope.phase ≡ true
      → Runs l (admit_source component s mt mn work l)
  unfolding admit_source
  admit_source-Runs component s mt mn work l hd hr =
      let plan = source_plan s in
      if_ind (Runs l) (not (accepts_output_event_type plan s.source_event_type)) (λ _. Run.stay)
        λ _.
          if_ind (Runs l)
            (not (
              declares_source_plan l.core.program plan.capability s.descriptor_type
                plan.terminal_type))
            (λ _. Run.stay)
            λ _.
              start_matched-Runs component s mt mn work (source_binding l.core.bindings plan) l hd
                hr

  pub activate_live-Runs :
      (component : ComponentId) (s : Subscription V) (mt : TypeId) (mn : TypeName) (work : TraceId)
      (l : Live V)
      → Runs l (activate_live component s mt mn work l)
  unfolding activate_live
  activate_live-Runs component s mt mn work l =
      if_ind (Runs l) l.core.draining (λ _. Run.stay)
        λ hd.
          if_ind (Runs l) (not (is_running (interfere l).scope.phase)) (λ _. one Step.others)
            λ hr. interfere-Run (
              admit_source-Runs component s mt mn work (interfere l)
                (ap (λ c. c.draining) (interfere-core l) ∙ hd) (not_lem _ hr))

  pub stop_result-Runs :
      (l : Live V) (stopped : Reason) (s : LiveSource V) (work : TraceId) (m : Live V)
      → Run l m
      → Runs l (stop_result stopped s work m)
  stop_result-Runs l none s work m h = h
  stop_result-Runs l (some reason) s work m h = h

  pub stop_mechanism-Run : (s : LiveSource V) (l : Live V) → Run l (stop_mechanism s l).1
  unfolding stop_mechanism
  stop_mechanism-Run s l = interfere-Run (one (Step.stopped_gate s.stamp.generation s.task))

  pub stop_mechanism-core : (s : LiveSource V) (l : Live V) → (stop_mechanism s l).1.core ≡ l.core
  unfolding stop_mechanism
  stop_mechanism-core s l = interfere-core l

  pub stop_source-Runs :
      (component : ComponentId) (s : LiveSource V) (retain : Bool) (work : TraceId) (l : Live V)
      → Runs l (stop_source component s retain work l)
  unfolding stop_source
  stop_source-Runs component s retain work l = stop_result-Runs l (stop_mechanism s l).0 s work _ (
      Run.then_step (stop_mechanism-Run s l) (
        Step.updated_source (is_live_source component s.stamp.subscription) (stop_entry retain)
          (λ x. refl)))

  stop_result-then :
      (l : Live V) (stopped : Reason) (s : LiveSource V) (work : TraceId) (m : Live V)
      (k : Unit → Live V → Result Unit × Live V)
      → Run l m
      → Runs m (k tt m)
      → Runs l (then_live (stop_result stopped s work m) k)
  stop_result-then l none s work m k h r = Run-trans h r
  stop_result-then l (some reason) s work m k h r = h

  -- The entries before the current one are settled, the others as they were.
  pub stop_each-Runs :
      (retain : Bool) (before list : List (LiveSource V)) (l : Live V)
      → l.core.sources ≡ before ++ list
      → Runs l (stop_each retain before list l)
  unfolding stop_each next_work
  stop_each-Runs retain before [] l e = Run.stay
  stop_each-Runs retain before (s ∷ rest) l e =
      let l1 = with_core next_work l in
      stop_result-then l (stop_mechanism s l1).0 s l.core.next_work _
        (λ _ m. stop_each retain (before ++ stop_entry retain s ∷ []) rest m)
        (Run.then_step (Run-trans (one Step.worked) (stop_mechanism-Run s l1)) (
          Step.updated_at (stop_entry retain) before rest s (λ x. refl)
            (ap (λ c. c.sources) (stop_mechanism-core s l1) ∙ e)))
        (stop_each-Runs retain (before ++ stop_entry retain s ∷ []) rest _
          (sym (append_assoc before (stop_entry retain s ∷ []) rest)))

  pub begin_drain-Runs : (l : Live V) → Runs l (begin_drain l)
  unfolding begin_drain
  begin_drain-Runs l =
      if_ind (Runs l) l.core.draining (λ _. Run.stay)
        λ _. Run-trans (one Step.cut_off) (stop_each-Runs true [] l.core.sources _ refl)

  pub observe_drain_cutoff-Runs : (l : Live V) → Runs l (observe_drain_cutoff l)
  unfolding observe_drain_cutoff
  observe_drain_cutoff-Runs l =
      if_ind (Runs l) l.core.draining (λ _. Run.stay)
        λ _.
          if_ind (Runs l) (is_draining (interfere l).scope.phase)
            (λ _. interfere-Run (begin_drain-Runs (interfere l))) λ _. one Step.others

  discard_source-Runs :
      (component : ComponentId) (s : LiveSource V) (work : TraceId) (l : Live V)
      → Runs l (discard_source component s work l)
  unfolding discard_source
  discard_source-Runs component s work l =
      then_live-Runs l (stop_source component s false work l) _
        (stop_source-Runs component s false work l)
        λ _ m. one (Step.dropped_source (is_live_source component s.stamp.subscription))

  replace_live-Runs :
      (component : ComponentId) (sub : Subscription V) (mt : TypeId) (mn : TypeName)
      (work : TraceId) (found : Option (LiveSource V)) (l : Live V)
      → Runs l (replace_live component sub mt mn work found l)
  unfolding replace_live
  replace_live-Runs component sub mt mn work none l = activate_live-Runs component sub mt mn work l
  replace_live-Runs component sub mt mn work (some s) l =
      if_ind (Runs l) (l.core.draining && s.drain_retained) (λ _. Run.stay)
        λ _.
          then_live-Runs l (discard_source component s work l) _
            (discard_source-Runs component s work l)
            λ _ m. activate_live-Runs component sub mt mn work m

  cancel_live-Runs :
      (component : ComponentId) (work : TraceId) (found : Option (LiveSource V)) (l : Live V)
      → Runs l (cancel_live component work found l)
  unfolding cancel_live
  cancel_live-Runs component work none l = Run.stay
  cancel_live-Runs component work (some s) l =
      if_ind (Runs l) (l.core.draining && s.drain_retained) (λ _. Run.stay)
        λ _. discard_source-Runs component s work l

  change_live-Runs :
      (component : ComponentId) (mt : TypeId) (mn : TypeName) (work : TraceId)
      (change : SubscriptionChange V) (l : Live V)
      → Runs l (change_live component mt mn work change l)
  unfolding change_live adopt_live
  change_live-Runs component mt mn work (SubscriptionChange.start s) l =
      activate_live-Runs component s mt mn work l
  change_live-Runs component mt mn work (SubscriptionChange.retain s) l =
      one (Step.updated_source (is_live_source component s.id) _ (λ x. refl))
  change_live-Runs component mt mn work (SubscriptionChange.replace s) l =
      replace_live-Runs component s mt mn work (live_source_at component s.id l.core) l
  change_live-Runs component mt mn work (SubscriptionChange.cancel id) l =
      cancel_live-Runs component work (live_source_at component id l.core) l

  change_each-Runs :
      (component : ComponentId) (mt : TypeId) (mn : TypeName) (work : TraceId)
      (list : List (SubscriptionChange V)) (l : Live V)
      → Runs l (change_each component mt mn work list l)
  unfolding change_each
  change_each-Runs component mt mn work [] l = Run.stay
  change_each-Runs component mt mn work (change ∷ rest) l =
      then_live-Runs l (observe_drain_cutoff l) _ (observe_drain_cutoff-Runs l) λ _ l1.
        then_live-Runs l1 (change_live component mt mn work change l1) _
          (change_live-Runs component mt mn work change l1)
          λ _ l2. change_each-Runs component mt mn work rest l2

  pub change_all-Runs :
      (component : ComponentId) (mt : TypeId) (mn : TypeName) (list : List (SubscriptionChange V))
      (work : TraceId) (l : Live V)
      → Runs l (change_all component mt mn list work l)
  unfolding change_all
  change_all-Runs component mt mn list work l =
      change_each-Runs component mt mn work (sort_changes list) l
