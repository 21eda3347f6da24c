-- ===== src/Live/Run.antt =====
-- LiveCore::run of src/live_runtime.rs: initialization and the select loop, on fuel.
use samara.Prelude.{
  ℕ, zero, suc, is_nil, none, some, Bool, ◌&&◌, List, [], ◌∷◌, ◌==◌, find, remove_first,
  if◌then◌else◌,
}
use samara.Errors.{Result, ok}
use samara.Program.{Program}
use samara.Live.State.{
  Shutdown, LiveMessage, LiveEvent, LiveTimer, LiveCore, LiveBindings, new_live_core, new_scope,
}
use samara.Live.Scope.{is_cancelling}
use samara.Live.Tasks.{Live, HostStep, interfere}
use samara.Live.Sources.{with_core, with_scope}
use samara.Live.Changes.{begin_drain, observe_drain_cutoff}
use samara.Live.Deliver.{process_live_message, process_live_source}
use samara.Live.Ingress.{process_effect, process_port_ingress, start_live}
use samara.Live.Cancel.{
  LiveEnd, end_faulted, end_closed, task_fault, set_exited, set_queue, or_end, unless_fault,
  finish_cancel,
}

module _ {V : Type 0} where
  unfoldable pub drain_finished : Live V → Bool
  drain_finished l =
      l.core.draining
      && (is_nil l.core.effects
          && (is_nil l.core.requests
              && (is_nil l.core.timers
                  && (is_nil l.scope.queue && (is_nil l.scope.running && is_nil l.scope.exited)))))

  abbrev pub is_timer : ℕ → LiveTimer V → Bool
  is_timer id t = t.id == id

  unfoldable pub drop_timer : ℕ → LiveCore V → LiveCore V
  drop_timer id c = record c { timers = remove_first (is_timer id) c.timers }

  -- `self.sources.clear()` before a drained end.
  abbrev pub clear_sources : LiveCore V → LiveCore V
  clear_sources c = record c { sources = [] }

  -- The owner task as `build` spawns it, among the other threads of a schedule.
  unfoldable pub spawn_live : Program V → LiveBindings V → List (List (HostStep V)) → Live V
  unfolding new_live_core new_scope
  spawn_live program bindings schedule = record {
    core = new_live_core program bindings;
    scope = new_scope;
    schedule = schedule;
  }

module _ {V : Type 0} (unwinds : V → Bool) where
  unfoldable pub process_timer : ℕ → LiveMessage V → Live V → Result Unit × Live V
  unfolding drop_timer process_live_message
  process_timer id message l = elim (find (is_timer id) l.core.timers) [
    | none ↦ (ok tt, l)
    | some timer ↦ process_live_message unwinds message (with_core (drop_timer id) l)
  ]

  -- The match of the loop, with what it goes on with.
  unfoldable pub dispatch_event : LiveEvent V → Live V → (Live V → LiveEnd V) → LiveEnd V
  unfolding process_live_message process_port_ingress process_live_source process_effect
      process_timer begin_drain finish_cancel end_faulted
  dispatch_event (LiveEvent.message m) l k = or_end (process_live_message unwinds m l) k
  dispatch_event (LiveEvent.port_ingress p) l k = or_end (process_port_ingress unwinds p l) k
  dispatch_event (LiveEvent.source_event stamp type event) l k =
      or_end (process_live_source unwinds stamp type event l) k
  dispatch_event (LiveEvent.effect_outcome id outcome) l k =
      or_end (process_effect unwinds id outcome l) k
  dispatch_event (LiveEvent.timer_fired id m) l k = or_end (process_timer id m l) k
  dispatch_event (LiveEvent.shutdown Shutdown.drain) l k = or_end (begin_drain l) k
  dispatch_event (LiveEvent.shutdown Shutdown.cancel) l k = finish_cancel unwinds none l

  -- An event is out of the channel.
  unfoldable pub take_event : LiveEvent V → Live V → (Live V → LiveEnd V) → LiveEnd V
  unfolding interfere is_cancelling finish_cancel dispatch_event
  take_event event l k =
      let l1 = interfere l in
      if is_cancelling l1.scope.phase
      then finish_cancel unwinds (some event) l1
      else dispatch_event event l1 k

  -- The `select!`: an exit is joined first, then an event is received. Without either the owner
  -- task waits, for as long as the other threads still act.
  unfoldable pub select_ready : Live V → (Live V → LiveEnd V) → LiveEnd V
  unfolding task_fault end_faulted take_event
  select_ready l k = elim (l.scope.exited) [
    | exit ∷ rest ↦ unless_fault (task_fault exit (with_scope (set_exited rest) l)) k
    | [] ↦ elim (l.scope.queue) [
      | event ∷ rest ↦ take_event event (with_scope (set_queue rest) l) k
      | [] ↦ if is_nil l.schedule then LiveEnd.waiting l else k l
    ]
  ]

  unfoldable pub live_loop : ℕ → Live V → LiveEnd V
  unfolding interfere is_cancelling finish_cancel observe_drain_cutoff end_faulted drain_finished
      end_closed select_ready
  live_loop zero l = LiveEnd.out_of_fuel
  live_loop (suc n) l =
      let l1 = interfere l in
      if is_cancelling l1.scope.phase
      then finish_cancel unwinds none l1
      else or_end (observe_drain_cutoff l1) (λ l2.
        if drain_finished l2
        then end_closed (with_core clear_sources l2)
        else select_ready (interfere l2) (live_loop n))

  -- `run`.
  unfoldable pub run_live : ℕ → Live V → LiveEnd V
  unfolding interfere is_cancelling finish_cancel start_live end_faulted live_loop
  run_live n l =
      let l1 = interfere l in
      if is_cancelling l1.scope.phase
      then finish_cancel unwinds none l1
      else or_end (start_live unwinds l1) (live_loop n)
