-- ===== src/Live/Phase.antt =====
-- The phase of LiveScope under the actions of the owner task and of the other threads, up to its end.
use samara.Prelude.{
  ℕ, ◌≡◌, refl, sym, subst, ◌∙◌, ◌⊎◌, inl, inr, Bool, ◌&&◌, Option, none, some, List, [], ◌∷◌, find,
  if_ind, option_ind,
}
use samara.Values.{EffectOutcome, ErasedSourceEvent}
use samara.Live.State.{Shutdown, ScopePhase, SourceSinkCore, TaskOutcome, LiveEvent, LiveScope}
use samara.Live.Scope.{
  is_running, admits_finite, is_active_gate, shutdown_phase, send_event, accept_ingress,
  accept_source, accept_finite, shutdown_from, begin_shutdown, update_sink, sink_of, gate_accept,
  send_through, sink_send, gate_stop,
}
use samara.Live.Tasks.{
  HostStep, Live, ingress, is_task, task_event, settle_task, can_exit, exit_task, host_step,
  host_steps, interfere_with, interfere, spawn_owned, abort,
}
use samara.Live.Sources.{open_sink, run_source}
use samara.Live.Commands.{issue_effect, issue_timer}
use samara.Live.Steps.{Step, Run}

-- The host leaves the phase, or begins one of the two shutdowns of a running scope.
abbrev pub Forward : ScopePhase → ScopePhase → Type 0
Forward p q =
    (q ≡ p) ⊎ (p ≡ ScopePhase.running) × ((q ≡ ScopePhase.draining) ⊎ (q ≡ ScopePhase.cancelling))

pub Forward-trans : (p q r : ScopePhase) → Forward p q → Forward q r → Forward p r
Forward-trans p q r (inl e) (inl f) = inl (f ∙ e)
Forward-trans p q r (inl e) (inr f) = inr (sym e ∙ f.0, f.1)
Forward-trans p q r (inr e) (inl f) = elim (e.1) [
  | inl d ↦ inr (e.0, inl (f ∙ d))
  | inr d ↦ inr (e.0, inr (f ∙ d))
]
Forward-trans p q r (inr e) (inr f) = inr (e.0, f.1)

shutdown-Forward : (mode : Shutdown) → Forward ScopePhase.running (shutdown_phase mode)
shutdown-Forward Shutdown.drain = inr (refl, inl refl)
shutdown-Forward Shutdown.cancel = inr (refl, inr refl)

module _ {V : Type 0} where
  abbrev SamePhase : LiveScope V → LiveScope V → Type 0
  SamePhase s t = t.phase ≡ s.phase

  abbrev KeepsPhase : {A : Type 0} → LiveScope V → A × LiveScope V → Type 0
  KeepsPhase s r = SamePhase s r.1

  send_event-phase : (event : LiveEvent V) (s : LiveScope V) → SamePhase s (send_event event s).1
  unfolding send_event
  send_event-phase event s = if_ind (KeepsPhase s) s.listening (λ _. refl) (λ _. refl)

  accept_ingress-phase :
      (event : LiveEvent V) (s : LiveScope V) → SamePhase s (accept_ingress event s).1
  unfolding accept_ingress
  accept_ingress-phase event s =
      if_ind (KeepsPhase s) (is_running s.phase) (λ _. send_event-phase event s) (λ _. refl)

  accept_source-phase :
      (event : LiveEvent V) (s : LiveScope V) → SamePhase s (accept_source event s).1
  unfolding accept_source
  accept_source-phase event s =
      if_ind (KeepsPhase s) (is_running s.phase) (λ _. send_event-phase event s) (λ _. refl)

  pub accept_finite-phase :
      (event : LiveEvent V) (s : LiveScope V) → SamePhase s (accept_finite event s).1
  unfolding accept_finite
  accept_finite-phase event s =
      if_ind (KeepsPhase s) (admits_finite s.phase) (λ _. send_event-phase event s) (λ _. refl)

  gate_accept-phase :
      (sink : SourceSinkCore) (event : ErasedSourceEvent V) (terminal : Bool) (s : LiveScope V)
      → SamePhase s (gate_accept sink event terminal s).1
  unfolding gate_accept update_sink
  gate_accept-phase sink event terminal s =
      let accepted = LiveEvent.source_event sink.stamp sink.terminal_type event in
      if_ind (KeepsPhase s) (is_active_gate sink.state)
        (λ _.
          if_ind (SamePhase s) ((accept_source accepted s).0 && terminal)
            (λ _. accept_source-phase accepted s) (λ _. accept_source-phase accepted s))
        (λ _. refl)

  send_through-phase :
      (found : Option SourceSinkCore) (event : ErasedSourceEvent V) (terminal : Bool)
      (s : LiveScope V)
      → SamePhase s (send_through found event terminal s).1
  unfolding send_through
  send_through-phase none event terminal s = refl
  send_through-phase (some sink) event terminal s = gate_accept-phase sink event terminal s

  sink_send-phase :
      (generation : ℕ) (event : ErasedSourceEvent V) (terminal : Bool) (s : LiveScope V)
      → SamePhase s (sink_send generation event terminal s).1
  unfolding sink_send
  sink_send-phase generation event terminal s =
      send_through-phase (sink_of generation s) event terminal s

  settle_task-phase :
      (task : ℕ) (outcome : EffectOutcome V) (s : LiveScope V)
      → SamePhase s (settle_task task outcome s)
  unfolding settle_task
  settle_task-phase task outcome s =
      option_ind (SamePhase s) (find (is_task task) s.running) (λ _. refl)
        λ t _.
          if_ind (SamePhase s) t.sent (λ _. refl)
            λ _.
              option_ind (SamePhase s) (task_event t.body outcome) (λ _. refl)
                (λ event _. accept_finite-phase event s)

  exit_task-phase :
      (task : ℕ) (outcome : TaskOutcome) (s : LiveScope V) → SamePhase s (exit_task task outcome s)
  unfolding exit_task
  exit_task-phase task outcome s =
      option_ind (SamePhase s) (find (is_task task) s.running) (λ _. refl)
        (λ t _. if_ind (SamePhase s) (can_exit t outcome) (λ _. refl) (λ _. refl))

  shutdown_from-phase :
      (p : ScopePhase) (mode : Shutdown) (s : LiveScope V)
      → s.phase ≡ p
      → Forward s.phase (shutdown_from p mode s).1.phase
  unfolding shutdown_from
  shutdown_from-phase ScopePhase.running mode s e =
      let began = record s { phase = shutdown_phase mode } in
      Forward-trans s.phase (shutdown_phase mode) _
        (subst (λ p. Forward p (shutdown_phase mode)) (sym e) (shutdown-Forward mode))
        (inl (send_event-phase (LiveEvent.shutdown mode) began))
  shutdown_from-phase ScopePhase.draining mode s e = inl refl
  shutdown_from-phase ScopePhase.cancelling mode s e = inl refl
  shutdown_from-phase ScopePhase.closed mode s e = inl refl
  shutdown_from-phase (ScopePhase.faulted x) mode s e = inl refl

  begin_shutdown-phase :
      (mode : Shutdown) (s : LiveScope V) → Forward s.phase (begin_shutdown mode s).1.phase
  unfolding begin_shutdown
  begin_shutdown-phase mode s = shutdown_from-phase s.phase mode s refl

  host_step-phase : (step : HostStep V) (s : LiveScope V) → Forward s.phase (host_step step s).phase
  unfolding host_step
  host_step-phase (HostStep.send target payload) s =
      inl (accept_ingress-phase (ingress target payload) s)
  host_step-phase (HostStep.call p) s = inl (accept_ingress-phase (LiveEvent.port_ingress p) s)
  host_step-phase (HostStep.shut_down mode) s = begin_shutdown-phase mode s
  host_step-phase (HostStep.emit generation event terminal) s =
      inl (sink_send-phase generation event terminal s)
  host_step-phase (HostStep.settle task outcome) s = inl (settle_task-phase task outcome s)
  host_step-phase (HostStep.exit task outcome) s = inl (exit_task-phase task outcome s)

  host_steps-phase :
      (steps : List (HostStep V)) (s : LiveScope V) → Forward s.phase (host_steps steps s).phase
  unfolding host_steps
  host_steps-phase [] s = inl refl
  host_steps-phase (step ∷ steps) s =
      Forward-trans s.phase (host_step step s).phase _ (host_step-phase step s)
        (host_steps-phase steps (host_step step s))

  interfere_with-phase :
      (schedule : List (List (HostStep V))) (l : Live V)
      → Forward l.scope.phase (interfere_with schedule l).scope.phase
  unfolding interfere_with
  interfere_with-phase [] l = inl refl
  interfere_with-phase (steps ∷ rest) l = host_steps-phase steps l.scope

  pub interfere-phase : (l : Live V) → Forward l.scope.phase (interfere l).scope.phase
  unfolding interfere
  interfere-phase l = interfere_with-phase l.schedule l

  pub Step-phase : {l m : Live V} → Step l m → Forward l.scope.phase m.scope.phase
  unfolding open_sink run_source spawn_owned issue_effect issue_timer gate_stop update_sink abort
  Step-phase {l} (Step.others) = interfere-phase l
  Step-phase {l} (Step.admitted event t) = inl (accept_finite-phase event l.scope)
  Step-phase _ = inl refl

  -- A sequence of actions never moves the phase back.
  pub Run-phase : {l m : Live V} → Run l m → Forward l.scope.phase m.scope.phase
  Run-phase (Run.stay) = inl refl
  Run-phase (Run.then_step h s) = Forward-trans _ _ _ (Run-phase h) (Step-phase s)
