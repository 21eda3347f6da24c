-- ===== src/Live/Sources.antt =====
-- Source bookkeeping of LiveCore: activation, stopping, the drain cutoff and the reconciliation
-- changes of a Component.
use samara.Prelude.{
  ℕ, suc, Option, none, some, Bool, true, false, not, ◌&&◌, ◌||◌, [], ◌∷◌, ◌++◌, ◌==◌, find,
  is_some_and, if◌then◌else◌,
}
use samara.Values.{TypeId, TypeName, TraceId}
use samara.Ids.{ComponentId, SubscriptionId, id_eq}
use samara.Errors.{FaultReason, RuntimeError, Result, ok, err, panic}
use samara.Source.{accepts_output_event_type}
use samara.Subscription.{Subscription, source_plan}
use samara.Program.{declares_source_plan}
use samara.Controlled.State.{SourceStamp}
use samara.Live.State.{
  SourceGateState, Reason, TaskContext, TaskBody, LiveSource, SourceBinding, LiveCore, LiveScope,
}
use samara.Live.Scope.{is_running, gate_stop}
use samara.Live.Tasks.{Live, interfere, spawn_owned, abort}
use samara.Live.Bindings.{SourceMatch, source_binding}

module _ {V : Type 0} where
  -- The `?` of the owner task's methods.
  abbrev pub then_live :
      {A B : Type 0} → Result A × Live V → (A → Live V → Result B × Live V) → Result B × Live V
  then_live (ok a, l) f = f a l
  then_live (err e, l) f = (err e, l)
  then_live (panic, l) f = (panic, l)

  abbrev pub fault_with :
      ComponentId → Option TypeName → TraceId → FaultReason → Live V → Result Unit × Live V
  fault_with component descriptor work reason l =
      (err (RuntimeError.fault component descriptor work reason), l)

  abbrev pub with_core : (LiveCore V → LiveCore V) → Live V → Live V
  with_core f l = record l { core = f l.core }

  abbrev pub with_scope : (LiveScope V → LiveScope V) → Live V → Live V
  with_scope f l = record l { scope = f l.scope }

  -- `work`: the number that it takes is `next_work`.
  unfoldable pub next_work : LiveCore V → LiveCore V
  next_work c = record c { next_work = suc c.next_work }

  abbrev pub is_live_source : ComponentId → SubscriptionId → LiveSource V → Bool
  is_live_source component subscription s =
      id_eq s.stamp.component component && id_eq s.stamp.subscription subscription

  -- `source_index`, with the entry found there.
  abbrev pub live_source_at : ComponentId → SubscriptionId → LiveCore V → Option (LiveSource V)
  live_source_at component subscription c = find (is_live_source component subscription) c.sources

  unfoldable pub live_stamp_is_current : SourceStamp → LiveCore V → Bool
  live_stamp_is_current stamp c =
      is_some_and (live_source_at stamp.component stamp.subscription c)
        (λ s. s.stamp.generation == stamp.generation)

  unfoldable pub live_source :
      ComponentId → Subscription V → TypeId → TypeName → ℕ → ℕ → LiveSource V
  unfolding source_plan
  live_source component subscription message_type message_type_name generation task = record {
    stamp = record {
      component = component;
      subscription = subscription.id;
      generation = generation;
    };
    running = true;
    terminal_observed = false;
    drain_retained = false;
    subscription = subscription;
    message_type = message_type;
    message_type_name = message_type_name;
    plan = source_plan subscription;
    task = task;
  }

  -- The gate and sink of a new generation, with the hook that the Driver's start left there.
  unfoldable pub open_sink : ComponentId → SubscriptionId → TypeId → Option Reason → Live V → Live V
  open_sink component subscription terminal hook l = record l {
    core = record (l.core) { next_generation = suc l.core.next_generation };
    scope = record (l.scope) {
      sinks =
          l.scope.sinks
          ++ record {
            stamp = record {
              component = component;
              subscription = subscription;
              generation = l.core.next_generation;
            };
            terminal_type = terminal;
            state = SourceGateState.active;
            stop_hook = hook;
          }
            ∷ [];
    };
  }

  -- `activate_source` after its checks, for a started Driver.
  unfoldable pub run_source :
      ComponentId → Subscription V → TypeId → TypeName → TraceId → Option Reason → Live V → Live V
  unfolding open_sink spawn_owned live_source
  run_source component subscription mt mn work hook l =
      let plan = source_plan subscription in
      let generation = l.core.next_generation in
      let l1 = open_sink component subscription.id plan.terminal_type hook l in
      let context =
        TaskContext.source
          (record {
            component = component;
            subscription = subscription.id;
            generation = generation;
          })
          plan.terminal_type_name work in
      let (task, l2) = spawn_owned context TaskBody.source l1 in
      record l2 {
        core = record (l2.core) {
          sources =
              l2.core.sources ++ live_source component subscription mt mn generation task ∷ [];
        };
      }

  -- The call of `binding.run`; a panic leaves the generation used.
  unfoldable pub start_source :
      ComponentId
      → Subscription V
      → TypeId
      → TypeName
      → TraceId
      → SourceBinding V
      → Live V
      → Result Unit × Live V
  unfolding run_source open_sink
  start_source component subscription mt mn work binding l =
      let plan = source_plan subscription in
      elim (binding.start plan.terminal) [
        | none ↦
            fault_with component (some plan.terminal_type_name) work
              FaultReason.source_start_panicked
              (open_sink component subscription.id plan.terminal_type none l)
        | some hook ↦ (ok tt, run_source component subscription mt mn work hook l)
      ]

  -- What the lookup of a binding leads to.
  unfoldable pub start_matched :
      ComponentId
      → Subscription V
      → TypeId
      → TypeName
      → TraceId
      → SourceMatch V
      → Live V
      → Result Unit × Live V
  unfolding start_source
  start_matched component subscription mt mn work (SourceMatch.unmatched reason) l =
      fault_with component (some (source_plan subscription).terminal_type_name) work reason l
  start_matched component subscription mt mn work (SourceMatch.matched binding) l =
      start_source component subscription mt mn work binding l

  -- The body of `activate_source` once the scope was seen running.
  unfoldable pub admit_source :
      ComponentId → Subscription V → TypeId → TypeName → TraceId → Live V → Result Unit × Live V
  unfolding start_matched
  admit_source component subscription mt mn work l =
      let plan = source_plan subscription in
      let name = some plan.terminal_type_name in
      if not (accepts_output_event_type plan subscription.source_event_type)
      then fault_with component name work FaultReason.plan_output_mismatch l
      else if not (
          declares_source_plan l.core.program plan.capability subscription.descriptor_type
            plan.terminal_type)
      then fault_with component name work FaultReason.undeclared_source l
      else start_matched component subscription mt mn work (source_binding l.core.bindings plan) l

  unfoldable pub activate_live :
      ComponentId → Subscription V → TypeId → TypeName → TraceId → Live V → Result Unit × Live V
  unfolding interfere is_running admit_source
  activate_live component subscription mt mn work l =
      if l.core.draining
      then (ok tt, l)
      else (let l1 = interfere l in
          if not (is_running l1.scope.phase)
          then (ok tt, l1)
          else admit_source component subscription mt mn work l1)

  abbrev pub stop_entry : Bool → LiveSource V → LiveSource V
  stop_entry retain s = record s { running = false; drain_retained = s.drain_retained || retain }

  -- What `stop_source` does at the gate and to the task of an entry.
  unfoldable pub stop_mechanism : LiveSource V → Live V → Reason × Live V
  unfolding interfere gate_stop abort
  stop_mechanism s l =
      let l1 = interfere l in
      let (stopped, scope) = gate_stop s.stamp.generation l1.scope in
      (stopped, record l1 { scope = abort s.task scope })

  abbrev pub stop_result : Reason → LiveSource V → TraceId → Live V → Result Unit × Live V
  stop_result none s work l = (ok tt, l)
  stop_result (some reason) s work l =
      fault_with s.stamp.component (some s.plan.terminal_type_name) work
        (FaultReason.mechanism reason) l
