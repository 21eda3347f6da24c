-- ===== src/Live/Aborts.antt =====
-- `cleanup_abort` of src/live_runtime.rs never waits for a task that it has not aborted.
use samara.Prelude.{
  not_both, ℕ, ◌≡◌, refl, sym, subst, Bool, true, ◌&&◌, Option, none, some, List, [], ◌∷◌, map,
  find, all, All, All-remove_first, All-update_first, if_ind, option_ind,
}
use samara.Values.{EffectOutcome, ErasedSourceEvent}
use samara.Live.State.{
  Shutdown, ScopePhase, SourceSinkCore, TaskOutcome, RunningTask, LiveEvent, LiveScope,
}
use samara.Live.Scope.{
  is_running, admits_finite, is_active_gate, shutdown_phase, send_event, accept_ingress,
  accept_source, accept_finite, shutdown_from, begin_shutdown, update_sink, sink_of, gate_accept,
  send_through, sink_send,
}
use samara.Live.Tasks.{
  HostStep, Live, ingress, is_task, mark_sent, mark_aborted, task_event, settle_task, can_exit,
  exit_task, host_step, host_steps, interfere_with, interfere, abort_all, abort_tasks,
}
use samara.Live.Sources.{with_core, with_scope}
use samara.Live.Cancel.{
  LiveEnd, stop_gates, clear_tables, abort_owned, abort_work, all_aborted, join_work, cleanup_abort,
}

module _ {V : Type 0} where
  -- Every task that is left was aborted.
  abbrev pub AreAborted : LiveScope V → Type 0
  AreAborted s = All (λ t. t.aborted ≡ true) s.running

  abbrev SameTasks : LiveScope V → LiveScope V → Type 0
  SameTasks s t = t.running ≡ s.running

  abbrev KeepsTasks : {A : Type 0} → LiveScope V → A × LiveScope V → Type 0
  KeepsTasks s r = SameTasks s r.1

  send_event-tasks : (event : LiveEvent V) (s : LiveScope V) → KeepsTasks s (send_event event s)
  unfolding send_event
  send_event-tasks event s = if_ind (KeepsTasks s) s.listening (λ _. refl) (λ _. refl)

  accept_ingress-tasks :
      (event : LiveEvent V) (s : LiveScope V) → KeepsTasks s (accept_ingress event s)
  unfolding accept_ingress
  accept_ingress-tasks event s =
      if_ind (KeepsTasks s) (is_running s.phase) (λ _. send_event-tasks event s) (λ _. refl)

  accept_source-tasks :
      (event : LiveEvent V) (s : LiveScope V) → KeepsTasks s (accept_source event s)
  unfolding accept_source
  accept_source-tasks event s =
      if_ind (KeepsTasks s) (is_running s.phase) (λ _. send_event-tasks event s) (λ _. refl)

  accept_finite-tasks :
      (event : LiveEvent V) (s : LiveScope V) → KeepsTasks s (accept_finite event s)
  unfolding accept_finite
  accept_finite-tasks event s =
      if_ind (KeepsTasks s) (admits_finite s.phase) (λ _. send_event-tasks event s) (λ _. refl)

  gate_accept-tasks :
      (sink : SourceSinkCore) (event : ErasedSourceEvent V) (terminal : Bool) (s : LiveScope V)
      → KeepsTasks s (gate_accept sink event terminal s)
  unfolding gate_accept update_sink
  gate_accept-tasks sink event terminal s =
      let accepted = LiveEvent.source_event sink.stamp sink.terminal_type event in
      if_ind (KeepsTasks s) (is_active_gate sink.state)
        (λ _.
          if_ind (SameTasks s) ((accept_source accepted s).0 && terminal)
            (λ _. accept_source-tasks accepted s) (λ _. accept_source-tasks accepted s))
        (λ _. refl)

  send_through-tasks :
      (found : Option SourceSinkCore) (event : ErasedSourceEvent V) (terminal : Bool)
      (s : LiveScope V)
      → KeepsTasks s (send_through found event terminal s)
  unfolding send_through
  send_through-tasks none event terminal s = refl
  send_through-tasks (some sink) event terminal s = gate_accept-tasks sink event terminal s

  shutdown_from-tasks :
      (p : ScopePhase) (mode : Shutdown) (s : LiveScope V) → KeepsTasks s (shutdown_from p mode s)
  unfolding shutdown_from
  shutdown_from-tasks ScopePhase.running mode s =
      send_event-tasks (LiveEvent.shutdown mode) (record s { phase = shutdown_phase mode })
  shutdown_from-tasks ScopePhase.draining mode s = refl
  shutdown_from-tasks ScopePhase.cancelling mode s = refl
  shutdown_from-tasks ScopePhase.closed mode s = refl
  shutdown_from-tasks (ScopePhase.faulted x) mode s = refl

  aborted_as : (s t : LiveScope V) → SameTasks s t → AreAborted s → AreAborted t
  aborted_as s t e v = subst (All (λ t. t.aborted ≡ true)) (sym e) v

  settle_task-AreAborted :
      (task : ℕ) (outcome : EffectOutcome V) (s : LiveScope V)
      → AreAborted s
      → AreAborted (settle_task task outcome s)
  unfolding settle_task
  settle_task-AreAborted task outcome s v =
      option_ind AreAborted (find (is_task task) s.running) (λ _. v)
        λ t _.
          if_ind AreAborted t.sent (λ _. v)
            λ _.
              option_ind AreAborted (task_event t.body outcome) (λ _. v)
                λ event _.
                  All-update_first (λ t. t.aborted ≡ true) (is_task task) mark_sent
                    (accept_finite event s).1.running (λ _ h. h)
                    (aborted_as s (accept_finite event s).1 (accept_finite-tasks event s) v)

  exit_task-AreAborted :
      (task : ℕ) (outcome : TaskOutcome) (s : LiveScope V)
      → AreAborted s
      → AreAborted (exit_task task outcome s)
  unfolding exit_task
  exit_task-AreAborted task outcome s v =
      option_ind AreAborted (find (is_task task) s.running) (λ _. v)
        λ t _.
          if_ind AreAborted (can_exit t outcome)
            (λ _. All-remove_first (λ t. t.aborted ≡ true) (is_task task) s.running v) (λ _. v)

  host_step-AreAborted :
      (step : HostStep V) (s : LiveScope V) → AreAborted s → AreAborted (host_step step s)
  unfolding host_step begin_shutdown sink_send
  host_step-AreAborted (HostStep.send target payload) s v =
      aborted_as s (accept_ingress (ingress target payload) s).1
        (accept_ingress-tasks (ingress target payload) s) v
  host_step-AreAborted (HostStep.call p) s v =
      aborted_as s (accept_ingress (LiveEvent.port_ingress p) s).1
        (accept_ingress-tasks (LiveEvent.port_ingress p) s) v
  host_step-AreAborted (HostStep.shut_down mode) s v =
      aborted_as s (shutdown_from s.phase mode s).1 (shutdown_from-tasks s.phase mode s) v
  host_step-AreAborted (HostStep.emit generation event terminal) s v =
      aborted_as s (send_through (sink_of generation s) event terminal s).1
        (send_through-tasks (sink_of generation s) event terminal s) v
  host_step-AreAborted (HostStep.settle task outcome) s v = settle_task-AreAborted task outcome s v
  host_step-AreAborted (HostStep.exit task outcome) s v = exit_task-AreAborted task outcome s v

  host_steps-AreAborted :
      (steps : List (HostStep V)) (s : LiveScope V) → AreAborted s → AreAborted (host_steps steps s)
  unfolding host_steps
  host_steps-AreAborted [] s v = v
  host_steps-AreAborted (step ∷ steps) s v =
      host_steps-AreAborted steps (host_step step s) (host_step-AreAborted step s v)

  interfere_with-AreAborted :
      (schedule : List (List (HostStep V))) (l : Live V)
      → AreAborted l.scope
      → AreAborted (interfere_with schedule l).scope
  unfolding interfere_with
  interfere_with-AreAborted [] l v = v
  interfere_with-AreAborted (steps ∷ rest) l v = host_steps-AreAborted steps l.scope v

  marked : (tasks : List (RunningTask V)) → All (λ t. t.aborted ≡ true) (map mark_aborted tasks)
  marked [] = tt
  marked (t ∷ tasks) = (refl, marked tasks)

  all-aborted :
      (tasks : List (RunningTask V))
      → All (λ t. t.aborted ≡ true) tasks
      → all (λ t. t.aborted) tasks ≡ true
  all-aborted [] h = refl
  all-aborted (t ∷ tasks) h = rw (h.0, all-aborted tasks h.1) refl

  abort_work-aborts : (l : Live V) → all_aborted (abort_work l).scope ≡ true
  unfolding abort_work interfere abort_all
  abort_work-aborts l =
      let stopped = stop_gates l.core.sources l in
      let handled =
        abort_tasks (map (λ t. t.task) stopped.core.timers)
          (abort_tasks (map (λ e. e.task) stopped.core.effects) stopped.scope) in
      all-aborted (abort_work l).scope.running (
        interfere_with-AreAborted stopped.schedule
          (with_core clear_tables (with_scope (abort_owned stopped.core) stopped))
          (marked handled.running))

  -- So the clean-up goes on with what follows it.
  pub cleanup_abort-ends_with :
      (P : LiveEnd V → Type 0) (l : Live V) (k : Live V → LiveEnd V)
      → P (k (join_work (abort_work l)))
      → P (cleanup_abort l k)
  unfolding cleanup_abort
  cleanup_abort-ends_with P l k h =
      if_ind P (all_aborted (abort_work l).scope) (λ _. h)
        (λ e. absurd (not_both (abort_work-aborts l) e))
