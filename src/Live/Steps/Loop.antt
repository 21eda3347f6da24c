-- ===== src/Live/Steps/Loop.antt =====
-- The loop of the owner task of src/live_runtime.rs is made of actions, and ends in one of six
-- ways.
use samara.Prelude.{
  ℕ, zero, suc, ◌≡◌, refl, Option, none, some, Bool, true, false, List, [], ◌∷◌, find, is_nil,
  length, if_ind, option_ind, list_ind,
}
use samara.Errors.{RuntimeError, Result, ok, err, panic}
use samara.Live.State.{Shutdown, LiveMessage, LiveEvent, TaskContext, TaskOutcome, TaskExit}
use samara.Live.Scope.{is_cancelling}
use samara.Live.Tasks.{Live, interfere}
use samara.Live.Sources.{with_core, with_scope}
use samara.Live.Changes.{observe_drain_cutoff, stop_each}
use samara.Live.Ingress.{start_live}
use samara.Live.Cancel.{
  LiveEnd, end_faulted, end_closed, cleanup_abort, task_fault, set_exited, set_queue, or_end,
  unless_fault, cancel_sources, cancel_joins, tasks_left, retain_pre_cancel, cancel_events,
  finish_cancel,
}
use samara.Live.Run.{
  drain_finished, clear_sources, is_timer, process_timer, dispatch_event, take_event, select_ready,
  live_loop, run_live,
}
use samara.Live.Steps.{Step, Run, Runs}
use samara.Live.Steps.Rules.{Run-trans, one}
use samara.Live.Steps.Sources.{observe_drain_cutoff-Runs, begin_drain-Runs, stop_each-Runs}
use samara.Live.Steps.Deliver.{
  process_live_message-Runs, process_live_source-Runs, process_effect-Runs,
  process_port_ingress-Runs,
}
use samara.Live.Steps.Start.{start_live-Runs}

module _ {V : Type 0} where
  -- How `run` can end from `l`: a wait, too little fuel, a panic, a fault, a finished cancellation
  -- or a finished drain, each after actions of the owner task.
  pub data Outcome (l : Live V) : LiveEnd V → Type 0 where
    waits : {m : Live V} → Run l m → Outcome l (LiveEnd.waiting m)
    exhausted : Outcome l LiveEnd.out_of_fuel
    panics : {m : Live V} → Run l m → Outcome l (LiveEnd.returned panic m)
    faults : {m : Live V} (e : RuntimeError) → Run l m → Outcome l (end_faulted e m)
    cancels : {m : Live V} → Run l m → Outcome l (cleanup_abort m end_closed)
    drains :
        {m : Live V}
        → Run l m
        → drain_finished m ≡ true
        → Outcome l (end_closed (with_core clear_sources m))

  pub Outcome-after : {l m : Live V} {e : LiveEnd V} → Run l m → Outcome m e → Outcome l e
  Outcome-after h (Outcome.waits k) = Outcome.waits (Run-trans h k)
  Outcome-after h (Outcome.exhausted) = Outcome.exhausted
  Outcome-after h (Outcome.panics k) = Outcome.panics (Run-trans h k)
  Outcome-after h (Outcome.faults e k) = Outcome.faults e (Run-trans h k)
  Outcome-after h (Outcome.cancels k) = Outcome.cancels (Run-trans h k)
  Outcome-after h (Outcome.drains k d) = Outcome.drains (Run-trans h k) d

  or_end-Outcome :
      {A : Type 0} (l : Live V) (r : Result A × Live V) (k : Live V → LiveEnd V)
      → Runs l r
      → ((m : Live V) → Outcome m (k m))
      → Outcome l (or_end r k)
  or_end-Outcome l (ok a, m) k h f = Outcome-after h (f m)
  or_end-Outcome l (err e, m) k h f = Outcome.faults e h
  or_end-Outcome l (panic, m) k h f = Outcome.panics h

  unless_fault-Outcome :
      (l : Live V) (r : Option RuntimeError × Live V) (k : Live V → LiveEnd V)
      → Run l r.1
      → ((m : Live V) → Outcome m (k m))
      → Outcome l (unless_fault r k)
  unless_fault-Outcome l (none, m) k h f = Outcome-after h (f m)
  unless_fault-Outcome l (some e, m) k h f = Outcome.faults e h

  task_fault-Run :
      (context : TaskContext) (outcome : TaskOutcome) (l : Live V)
      → Run l (task_fault (record { context = context; outcome = outcome }) l).1
  unfolding task_fault
  task_fault-Run context (TaskOutcome.finished none) l = Run.stay
  task_fault-Run context (TaskOutcome.finished (some reason)) l = Run.stay
  task_fault-Run context TaskOutcome.panicked l = Run.stay
  task_fault-Run context TaskOutcome.cancelled l = Run.stay
  task_fault-Run context TaskOutcome.failed l = one Step.worked

  cancel_sources-Outcome : (l : Live V) → Outcome l (cancel_sources l)
  unfolding cancel_sources
  cancel_sources-Outcome l =
      or_end-Outcome l (stop_each false [] l.core.sources l) _
        (stop_each-Runs false [] l.core.sources l refl) (λ m. Outcome.cancels Run.stay)

  -- The exit at the head is joined.
  join-Outcome :
      (exit : TaskExit) (rest : List TaskExit) (l : Live V) (k : Live V → LiveEnd V)
      → l.scope.exited ≡ exit ∷ rest
      → ((m : Live V) → Outcome m (k m))
      → Outcome l (unless_fault (task_fault exit (with_scope (set_exited rest) l)) k)
  join-Outcome exit rest l k e f =
      unless_fault-Outcome l (task_fault exit (with_scope (set_exited rest) l)) k
        (Run-trans (one (Step.joined exit rest e)) (task_fault-Run exit.context exit.outcome _)) f

  cancel_joins-Outcome : (n : ℕ) (l : Live V) → Outcome l (cancel_joins n l)
  unfolding cancel_joins
  cancel_joins-Outcome zero l = Outcome.exhausted
  cancel_joins-Outcome (suc n) l = Outcome-after (one Step.others) (
      list_ind (Outcome (interfere l)) (interfere l).scope.exited
        (λ _. cancel_sources-Outcome (interfere l))
        λ exit rest e.
          join-Outcome exit rest (interfere l) (cancel_joins n) e (cancel_joins-Outcome n))

module _ {V : Type 0} (unwinds : V → Bool) where
  retain_pre_cancel-Runs :
      (event : LiveEvent V) (l : Live V) → Runs l (retain_pre_cancel unwinds event l)
  unfolding retain_pre_cancel
  retain_pre_cancel-Runs (LiveEvent.effect_outcome id outcome) l =
      process_effect-Runs unwinds id outcome l
  retain_pre_cancel-Runs (LiveEvent.message m) l = Run.stay
  retain_pre_cancel-Runs (LiveEvent.port_ingress p) l = Run.stay
  retain_pre_cancel-Runs (LiveEvent.source_event stamp type event) l = Run.stay
  retain_pre_cancel-Runs (LiveEvent.timer_fired id m) l = Run.stay
  retain_pre_cancel-Runs (LiveEvent.shutdown mode) l = Run.stay

  cancel_events-Outcome : (n : ℕ) (l : Live V) → Outcome l (cancel_events unwinds n l)
  unfolding cancel_events
  cancel_events-Outcome zero l = Outcome.exhausted
  cancel_events-Outcome (suc n) l = Outcome-after (one Step.others) (
      list_ind (Outcome (interfere l)) (interfere l).scope.queue
        (λ _. cancel_joins-Outcome (suc (tasks_left (interfere l))) (interfere l))
        λ event rest e.
          or_end-Outcome (interfere l)
            (retain_pre_cancel unwinds event (with_scope (set_queue rest) (interfere l))) _
            (Run-trans (one (Step.dequeued event rest e)) (retain_pre_cancel-Runs event _))
            (cancel_events-Outcome n))

  finish_cancel-Outcome :
      (first : Option (LiveEvent V)) (l : Live V) → Outcome l (finish_cancel unwinds first l)
  unfolding finish_cancel
  finish_cancel-Outcome none l = cancel_events-Outcome (suc (length l.scope.queue)) l
  finish_cancel-Outcome (some event) l =
      or_end-Outcome l (retain_pre_cancel unwinds event l) _ (retain_pre_cancel-Runs event l)
        (λ m. cancel_events-Outcome (suc (length m.scope.queue)) m)

  process_timer-Runs :
      (id : ℕ) (m : LiveMessage V) (l : Live V) → Runs l (process_timer unwinds id m l)
  unfolding process_timer
  process_timer-Runs id m l =
      option_ind (Runs l) (find (is_timer id) l.core.timers) (λ _. Run.stay)
        λ timer _. Run-trans (one (Step.dropped_timer id)) (process_live_message-Runs unwinds m _)

  dispatch_event-Outcome :
      (event : LiveEvent V) (l : Live V) (k : Live V → LiveEnd V)
      → ((m : Live V) → Outcome m (k m))
      → Outcome l (dispatch_event unwinds event l k)
  unfolding dispatch_event
  dispatch_event-Outcome (LiveEvent.message m) l k f =
      or_end-Outcome l _ k (process_live_message-Runs unwinds m l) f
  dispatch_event-Outcome (LiveEvent.port_ingress p) l k f =
      or_end-Outcome l _ k (process_port_ingress-Runs unwinds p l) f
  dispatch_event-Outcome (LiveEvent.source_event stamp type event) l k f =
      or_end-Outcome l _ k (process_live_source-Runs unwinds stamp type event l) f
  dispatch_event-Outcome (LiveEvent.effect_outcome id outcome) l k f =
      or_end-Outcome l _ k (process_effect-Runs unwinds id outcome l) f
  dispatch_event-Outcome (LiveEvent.timer_fired id m) l k f =
      or_end-Outcome l _ k (process_timer-Runs id m l) f
  dispatch_event-Outcome (LiveEvent.shutdown Shutdown.drain) l k f =
      or_end-Outcome l _ k (begin_drain-Runs l) f
  dispatch_event-Outcome (LiveEvent.shutdown Shutdown.cancel) l k f = finish_cancel-Outcome none l

  take_event-Outcome :
      (event : LiveEvent V) (l : Live V) (k : Live V → LiveEnd V)
      → ((m : Live V) → Outcome m (k m))
      → Outcome l (take_event unwinds event l k)
  unfolding take_event
  take_event-Outcome event l k f = Outcome-after (one Step.others) (
      if_ind (Outcome (interfere l)) (is_cancelling (interfere l).scope.phase)
        (λ _. finish_cancel-Outcome (some event) (interfere l))
        (λ _. dispatch_event-Outcome event (interfere l) k f))

  select_ready-Outcome :
      (l : Live V) (k : Live V → LiveEnd V)
      → ((m : Live V) → Outcome m (k m))
      → Outcome l (select_ready unwinds l k)
  unfolding select_ready
  select_ready-Outcome l k f =
      list_ind (Outcome l) l.scope.exited
        (λ _.
          list_ind (Outcome l) l.scope.queue
            (λ _. if_ind (Outcome l) (is_nil l.schedule) (λ _. Outcome.waits Run.stay) (λ _. f l))
            λ event rest e.
              Outcome-after (one (Step.dequeued event rest e)) (take_event-Outcome event _ k f))
        (λ exit rest e. join-Outcome exit rest l k e f)

  live_loop-Outcome : (n : ℕ) (l : Live V) → Outcome l (live_loop unwinds n l)
  unfolding live_loop
  live_loop-Outcome zero l = Outcome.exhausted
  live_loop-Outcome (suc n) l =
      let l1 = interfere l in
      Outcome-after (one Step.others) (
        if_ind (Outcome l1) (is_cancelling l1.scope.phase) (λ _. finish_cancel-Outcome none l1)
          λ _. or_end-Outcome l1 (observe_drain_cutoff l1) _ (observe_drain_cutoff-Runs l1) λ m.
            if_ind (Outcome m) (drain_finished m) (λ d. Outcome.drains Run.stay d)
              λ _.
                Outcome-after (one Step.others)
                  (select_ready-Outcome (interfere m) (live_loop unwinds n) (live_loop-Outcome n)))

  -- Whatever the other threads do, `run` is a sequence of the atomic actions that `Step` lists, and
  -- ends in one of the ways that `Outcome` lists.
  pub run_live-Outcome : (n : ℕ) (l : Live V) → Outcome l (run_live unwinds n l)
  unfolding run_live
  run_live-Outcome n l =
      let l1 = interfere l in
      Outcome-after (one Step.others) (
        if_ind (Outcome l1) (is_cancelling l1.scope.phase) (λ _. finish_cancel-Outcome none l1)
          λ _.
            or_end-Outcome l1 (start_live unwinds l1) _ (start_live-Runs unwinds l1)
              (live_loop-Outcome n))
