-- ===== src/Live/Cancel.antt =====
-- LiveCore: how the owner task ends - `cleanup_abort`, `task_fault` and `finish_cancel`.
use samara.Prelude.{
  map, all, ℕ, zero, suc, Option, none, some, Bool, true, false, not, ◌&&◌, ◌||◌, List, [], ◌∷◌,
  ◌+◌, ◌==◌, length, is_some_and, if◌then◌else◌,
}
use samara.Ids.{ComponentId}
use samara.Errors.{FaultReason, RuntimeError, Result, ok, err, panic}
use samara.Controlled.State.{SourceStamp}
use samara.Controlled.Drive.{ShutdownReport}
use samara.Live.State.{
  TaskContext, TaskOutcome, TaskExit, LiveSource, LiveEvent, LiveCore, LiveScope,
}
use samara.Live.Scope.{fault, close, gate_stop}
use samara.Live.Tasks.{Live, interfere, abort_all, abort_tasks}
use samara.Live.Sources.{with_core, with_scope, next_work, live_source_at}
use samara.Live.Changes.{stop_each}
use samara.Live.Ingress.{process_effect}

-- "<runtime>".
abbrev pub runtime_id : ComponentId
runtime_id = 60 ∷ 114 ∷ 117 ∷ 110 ∷ 116 ∷ 105 ∷ 109 ∷ 101 ∷ 62 ∷ []

unfoldable pub clean_report : ShutdownReport
clean_report = record {
  completed = 0;
  cancelled = 0;
  remaining = 0;
  pending_now = 0;
  pending_later = 0;
}

-- What becomes of `run`: its result, a wait that no other thread ends, or too little fuel.
pub data LiveEnd (V : Type 0) : Type 0 where
  returned : Result ShutdownReport → Live V → LiveEnd V
  waiting : Live V → LiveEnd V
  out_of_fuel : LiveEnd V

module _ {V : Type 0} where
  -- The gates of the active Sources stop, whatever their hooks return.
  unfoldable pub stop_gates : List (LiveSource V) → Live V → Live V
  unfolding interfere gate_stop
  stop_gates [] l = l
  stop_gates (s ∷ rest) l =
      let l1 = interfere l in
      stop_gates rest (with_scope (λ scope. (gate_stop s.stamp.generation scope).1) l1)

  abbrev pub clear_tables : LiveCore V → LiveCore V
  clear_tables c = record c { sources = []; effects = []; requests = []; timers = [] }

  abbrev pub clear_queue : LiveScope V → LiveScope V
  clear_queue s = record s { queue = [] }

  -- What aborts: the handles of the effects and of the timers, then the whole JoinSet.
  abbrev pub abort_owned : LiveCore V → LiveScope V → LiveScope V
  abort_owned c s =
      abort_all
        (abort_tasks (map (λ t. t.task) c.timers) (abort_tasks (map (λ e. e.task) c.effects) s))

  -- `cleanup_abort` up to its joins.
  unfoldable pub abort_work : Live V → Live V
  unfolding stop_gates abort_tasks abort_all interfere
  abort_work l =
      let l1 = stop_gates l.core.sources l in
      interfere (with_core clear_tables (with_scope (abort_owned l1.core) l1))

  -- `join_next` yields an aborted task, since its future ends where it yields; it waits for any other.
  abbrev pub all_aborted : LiveScope V → Bool
  all_aborted s = all (λ t. t.aborted) s.running

  abbrev pub join_all : LiveScope V → LiveScope V
  join_all s = record s { running = []; exited = [] }

  -- The joins, then what is still queued is dropped.
  unfoldable pub join_work : Live V → Live V
  unfolding interfere
  join_work l = with_scope clear_queue (interfere (with_scope join_all l))

  -- `cleanup_abort`, with what follows its await.
  unfoldable pub cleanup_abort : Live V → (Live V → LiveEnd V) → LiveEnd V
  unfolding abort_work join_work
  cleanup_abort l k =
      let l1 = abort_work l in if all_aborted l1.scope then k (join_work l1) else LiveEnd.waiting l1

  -- The end of `run` drops the receiver.
  abbrev pub drop_receiver : LiveScope V → LiveScope V
  drop_receiver s = record s { listening = false; queue = [] }

  -- `self.scope.fault(error.clone()); self.cleanup_abort().await; return Err(error);`
  unfoldable pub end_faulted : RuntimeError → Live V → LiveEnd V
  unfolding interfere fault cleanup_abort
  end_faulted error l =
      cleanup_abort (with_scope (fault error) (interfere l))
        (λ l1. LiveEnd.returned (err error) (with_scope drop_receiver l1))

  unfoldable pub end_closed : Live V → LiveEnd V
  unfolding interfere close
  end_closed l =
      LiveEnd.returned (ok clean_report) (with_scope drop_receiver (with_scope close (interfere l)))

  abbrev pub still_relevant : SourceStamp → LiveCore V → Bool
  still_relevant stamp c = is_some_and (live_source_at stamp.component stamp.subscription c) (λ s.
      s.stamp.generation == stamp.generation
      && (s.running || (s.drain_retained && not s.terminal_observed)))

  -- `task_fault` past the outcome: `panicked` changes what a timer says.
  unfoldable pub context_fault : TaskContext → FaultReason → Bool → LiveCore V → Option RuntimeError
  context_fault (TaskContext.effect id component name work) reason panicked c =
      some (RuntimeError.fault component (some name) work reason)
  context_fault (TaskContext.source stamp name work) reason panicked c =
      if still_relevant stamp c
      then some (RuntimeError.fault stamp.component (some name) work reason)
      else none
  context_fault (TaskContext.timer component work) reason panicked c = some (
      RuntimeError.fault component none work
        (if panicked then FaultReason.timer_panicked else reason))

  -- One result of `join_next`, with the branch of a JoinError.
  unfoldable pub task_fault : TaskExit → Live V → Option RuntimeError × Live V
  unfolding context_fault next_work
  task_fault exit l = elim (exit.outcome) [
    | TaskOutcome.finished none ↦ (none, l)
    | TaskOutcome.finished (some reason) ↦
        (context_fault exit.context (FaultReason.mechanism reason) false l.core, l)
    | TaskOutcome.panicked ↦ (context_fault exit.context FaultReason.driver_panicked true l.core, l)
    | TaskOutcome.cancelled ↦ (none, l)
    | TaskOutcome.failed ↦ (
      some (RuntimeError.fault runtime_id none l.core.next_work FaultReason.task_unsupervised),
      with_core next_work l,
    )
  ]

  -- An effect's exit keeps its slot of the JoinSet until it is joined.
  abbrev pub set_exited : List TaskExit → LiveScope V → LiveScope V
  set_exited exited s = record s { exited = exited }

  abbrev pub set_queue : List (LiveEvent V) → LiveScope V → LiveScope V
  set_queue queue s = record s { queue = queue }

  -- `if let Err(error)` with the three lines that every caller has.
  abbrev pub or_end : {A : Type 0} → Result A × Live V → (Live V → LiveEnd V) → LiveEnd V
  or_end (ok a, l) k = k l
  or_end (err e, l) k = end_faulted e l
  or_end (panic, l) k = LiveEnd.returned panic l

  abbrev pub unless_fault : Option RuntimeError × Live V → (Live V → LiveEnd V) → LiveEnd V
  unless_fault (none, l) k = k l
  unless_fault (some e, l) k = end_faulted e l

  -- The last part of `finish_cancel`: the Sources, and the clean end.
  unfoldable pub cancel_sources : Live V → LiveEnd V
  unfolding stop_each end_faulted cleanup_abort end_closed
  cancel_sources l =
      or_end (stop_each false [] l.core.sources l) (λ l1. cleanup_abort l1 end_closed)

  -- `while let Some(joined) = self.tasks.try_join_next()`.
  unfoldable pub cancel_joins : ℕ → Live V → LiveEnd V
  unfolding interfere task_fault end_faulted cancel_sources
  cancel_joins zero l = LiveEnd.out_of_fuel
  cancel_joins (suc n) l =
      let l1 = interfere l in
      elim (l1.scope.exited) [
        | [] ↦ cancel_sources l1
        | exit ∷ rest ↦
            unless_fault (task_fault exit (with_scope (set_exited rest) l1)) (cancel_joins n)
      ]

  abbrev pub tasks_left : Live V → ℕ
  tasks_left l = length l.scope.running + length l.scope.exited

module _ {V : Type 0} (unwinds : V → Bool) where
  unfoldable pub retain_pre_cancel : LiveEvent V → Live V → Result Unit × Live V
  unfolding process_effect
  retain_pre_cancel (LiveEvent.effect_outcome id outcome) l = process_effect unwinds id outcome l
  retain_pre_cancel (LiveEvent.message m) l = (ok tt, l)
  retain_pre_cancel (LiveEvent.port_ingress p) l = (ok tt, l)
  retain_pre_cancel (LiveEvent.source_event stamp type event) l = (ok tt, l)
  retain_pre_cancel (LiveEvent.timer_fired id m) l = (ok tt, l)
  retain_pre_cancel (LiveEvent.shutdown mode) l = (ok tt, l)

  -- `while let Ok(event) = self.receiver.try_recv()`.
  unfoldable pub cancel_events : ℕ → Live V → LiveEnd V
  unfolding interfere retain_pre_cancel end_faulted cancel_joins
  cancel_events zero l = LiveEnd.out_of_fuel
  cancel_events (suc n) l =
      let l1 = interfere l in
      elim (l1.scope.queue) [
        | [] ↦ cancel_joins (suc (tasks_left l1)) l1
        | event ∷ rest ↦
            or_end (retain_pre_cancel event (with_scope (set_queue rest) l1)) (cancel_events n)
      ]

  -- The fuel of both loops is what there is to take; nothing is admitted any more.
  unfoldable pub finish_cancel : Option (LiveEvent V) → Live V → LiveEnd V
  unfolding cancel_events retain_pre_cancel end_faulted
  finish_cancel none l = cancel_events (suc (length l.scope.queue)) l
  finish_cancel (some event) l =
      or_end (retain_pre_cancel event l) (λ l1. cancel_events (suc (length l1.scope.queue)) l1)
