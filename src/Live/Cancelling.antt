-- ===== src/Live/Cancelling.antt =====
-- A cancelled scope of src/live_runtime.rs: what the other threads can still do to it, and where a
-- Command is cut off.
use samara.Prelude.{
  ◌++◌, inl, inr, Bool-cases, ℕ, ◌+◌, ◌≡◌, refl, sym, subst, ◌∙◌, ap, Bool, true, false, Option,
  none, some, List, [], ◌∷◌, find, length, length-snoc, length-remove_first, arith, if_ind,
  option_ind,
}
use samara.Values.{TraceId, EffectOutcome, ErasedSourceEvent}
use samara.Ids.{ComponentId}
use samara.Errors.{Result, ok, err, panic}
use samara.Kernel.{ErasedCommand}
use samara.Command.{Command, into_declarations}
use samara.Controlled.Commands.{Origin}
use samara.Live.State.{Shutdown, ScopePhase, SourceSinkCore, LiveEvent, TaskOutcome, LiveScope}
use samara.Live.Scope.{
  is_running, is_cancelling, admits_finite, is_active_gate, accept_ingress, accept_source,
  accept_finite, shutdown_from, begin_shutdown, sink_of, gate_accept, send_through, sink_send,
}
use samara.Live.Tasks.{
  HostStep, Live, ingress, is_task, mark_sent, task_event, settle_task, can_exit, exit_task,
  host_step, host_steps, interfere_with, interfere,
}
use samara.Live.Sources.{then_live, with_core, next_work}
use samara.Live.Changes.{observe_drain_cutoff}
use samara.Live.Commands.{live_declaration, live_each, interpret_live}
use samara.Live.Steps.Sources.{interfere-core}
use samara.Live.Cutoff.{length-update}

module _ {V : Type 0} where
  abbrev pub IsCancelled : LiveScope V → Type 0
  IsCancelled s = s.phase ≡ ScopePhase.cancelling

  -- The phase and the channel are as they were, and no task is lost or gained.
  abbrev pub Holds : LiveScope V → LiveScope V → Type 0
  Holds s t =
      (t.phase ≡ s.phase)
      × (t.queue ≡ s.queue)
      × (length t.running + length t.exited ≡ length s.running + length s.exited)

  abbrev HoldsAfter : {A : Type 0} → LiveScope V → A × LiveScope V → Type 0
  HoldsAfter s r = r.1 ≡ s

  accept_ingress-Holds :
      (event : LiveEvent V) (s : LiveScope V) → IsCancelled s → (accept_ingress event s).1 ≡ s
  unfolding accept_ingress is_running
  accept_ingress-Holds event s c = rw c

  accept_source-Holds :
      (event : LiveEvent V) (s : LiveScope V) → IsCancelled s → accept_source event s ≡ (false, s)
  unfolding accept_source is_running
  accept_source-Holds event s c = rw c

  pub accept_finite-Holds :
      (event : LiveEvent V) (s : LiveScope V) → IsCancelled s → accept_finite event s ≡ (false, s)
  unfolding accept_finite admits_finite
  accept_finite-Holds event s c = rw c

  begin_shutdown-Holds :
      (mode : Shutdown) (s : LiveScope V) → IsCancelled s → (begin_shutdown mode s).1 ≡ s
  unfolding begin_shutdown shutdown_from
  begin_shutdown-Holds mode s c = rw c

  gate_accept-Holds :
      (sink : SourceSinkCore) (event : ErasedSourceEvent V) (terminal : Bool) (s : LiveScope V)
      → IsCancelled s
      → (gate_accept sink event terminal s).1 ≡ s
  unfolding gate_accept
  gate_accept-Holds sink event terminal s c =
      if_ind (HoldsAfter s) (is_active_gate sink.state)
        (λ _.
          rw (accept_source-Holds (LiveEvent.source_event sink.stamp sink.terminal_type event) s c))
        (λ _. refl)

  send_through-Holds :
      (found : Option SourceSinkCore) (event : ErasedSourceEvent V) (terminal : Bool)
      (s : LiveScope V)
      → IsCancelled s
      → (send_through found event terminal s).1 ≡ s
  unfolding send_through
  send_through-Holds none event terminal s c = refl
  send_through-Holds (some sink) event terminal s c = gate_accept-Holds sink event terminal s c

  sink_send-Holds :
      (generation : ℕ) (event : ErasedSourceEvent V) (terminal : Bool) (s : LiveScope V)
      → IsCancelled s
      → (sink_send generation event terminal s).1 ≡ s
  unfolding sink_send
  sink_send-Holds generation event terminal s c =
      send_through-Holds (sink_of generation s) event terminal s c

  settle_task-Holds :
      (task : ℕ) (outcome : EffectOutcome V) (s : LiveScope V)
      → IsCancelled s
      → Holds s (settle_task task outcome s)
  unfolding settle_task
  settle_task-Holds task outcome s c =
      option_ind (Holds s) (find (is_task task) s.running) (λ _. (refl, refl, refl))
        λ t _.
          if_ind (Holds s) t.sent (λ _. (refl, refl, refl))
            λ _.
              option_ind (Holds s) (task_event t.body outcome) (λ _. (refl, refl, refl))
                λ event _.
                  rw (accept_finite-Holds event s c)
                    (refl, refl, omega (arith, length-update (is_task task) mark_sent s.running))

  exit_task-Holds :
      (task : ℕ) (outcome : TaskOutcome) (s : LiveScope V) → Holds s (exit_task task outcome s)
  unfolding exit_task
  exit_task-Holds task outcome s =
      option_ind (Holds s) (find (is_task task) s.running) (λ _. (refl, refl, refl))
        λ t e.
          if_ind (Holds s) (can_exit t outcome)
            (λ _. (
              refl,
              refl,
              omega (
                arith,
                length-remove_first (is_task task) s.running e,
                length-snoc s.exited (record { context = t.context; outcome = outcome }),
              ),
            ))
            (λ _. (refl, refl, refl))

  same-Holds : {s t : LiveScope V} → t ≡ s → Holds s t
  same-Holds {s} e = subst (Holds s) (sym e) (refl, refl, refl)

  host_step-Holds :
      (step : HostStep V) (s : LiveScope V) → IsCancelled s → Holds s (host_step step s)
  unfolding host_step
  host_step-Holds (HostStep.send target payload) s c =
      same-Holds (accept_ingress-Holds (ingress target payload) s c)
  host_step-Holds (HostStep.call p) s c =
      same-Holds (accept_ingress-Holds (LiveEvent.port_ingress p) s c)
  host_step-Holds (HostStep.shut_down mode) s c = same-Holds (begin_shutdown-Holds mode s c)
  host_step-Holds (HostStep.emit generation event terminal) s c =
      same-Holds (sink_send-Holds generation event terminal s c)
  host_step-Holds (HostStep.settle task outcome) s c = settle_task-Holds task outcome s c
  host_step-Holds (HostStep.exit task outcome) s c = exit_task-Holds task outcome s

  host_steps-Holds :
      (steps : List (HostStep V)) (s : LiveScope V) → IsCancelled s → Holds s (host_steps steps s)
  unfolding host_steps
  host_steps-Holds [] s c = (refl, refl, refl)
  host_steps-Holds (step ∷ steps) s c =
      let first = host_step-Holds step s c in
      let rest = host_steps-Holds steps (host_step step s) (first.0 ∙ c) in
      (rest.0 ∙ first.0, rest.1 ∙ first.1, rest.2 ∙ first.2)

  interfere_with-Holds :
      (schedule : List (List (HostStep V))) (l : Live V)
      → IsCancelled l.scope
      → Holds l.scope (interfere_with schedule l).scope
  unfolding interfere_with
  interfere_with-Holds [] l c = (refl, refl, refl)
  interfere_with-Holds (steps ∷ rest) l c = host_steps-Holds steps l.scope c

  pub interfere-Holds : (l : Live V) → IsCancelled l.scope → Holds l.scope (interfere l).scope
  unfolding interfere
  interfere-Holds l c = interfere_with-Holds l.schedule l c

  pub interfere-cancelling :
      (l : Live V) → IsCancelled l.scope → is_cancelling (interfere l).scope.phase ≡ true
  unfolding is_cancelling
  interfere-cancelling l c = ap is_cancelling ((interfere-Holds l c).0 ∙ c)

  -- Where the declarations of a Command come from.
  abbrev pub origin_of : ErasedCommand V → ComponentId → TraceId → Origin
  origin_of erased component cause = record {
    component = component;
    message_type = erased.message_type;
    message_type_name = erased.message_type_name;
    cause = cause;
  }

  -- If the first Command ends well, and the scope is cancelled by the time of the next check, then the
  -- second one ends well and leaves what the owner task keeps as the first one left it.
  abbrev pub StopsAs : Result Unit × Live V → Result Unit × Live V → Type 0
  StopsAs r s =
      r.0 ≡ ok tt
      → is_cancelling (interfere r.1).scope.phase ≡ true
      → (s.0 ≡ ok tt) × (s.1.core ≡ r.1.core)

  then_live-StopsAs :
      {A : Type 0} (r : Result A × Live V) (f g : A → Live V → Result Unit × Live V)
      → ((a : A) (m : Live V) → StopsAs (f a m) (g a m))
      → StopsAs (then_live r f) (then_live r g)
  then_live-StopsAs (ok a, m) f g h = h a m
  then_live-StopsAs (err e, m) f g h = λ k _. cc
  then_live-StopsAs (panic, m) f g h = λ k _. cc

module _ {V : Type 0} (unwinds : V → Bool) where
  rest-StopsAs :
      (o : Origin) (rest : List (Command V)) (l : Live V)
      → StopsAs (ok tt, l) (live_each unwinds o rest l)
  unfolding live_each
  rest-StopsAs o [] l e c = (refl, refl)
  rest-StopsAs o (declaration ∷ rest) l e c = rw c (refl, interfere-core l)

  each-StopsAs :
      (o : Origin) (issued rest : List (Command V)) (l : Live V)
      → StopsAs (live_each unwinds o issued l) (live_each unwinds o (issued ++ rest) l)
  unfolding live_each
  each-StopsAs o [] rest l = rest-StopsAs o rest l
  each-StopsAs o (declaration ∷ issued) rest l =
      elim (Bool-cases (is_cancelling (interfere l).scope.phase)) [
        | inl h ↦ rw h (λ _ _. (refl, refl))
        | inr h ↦ rw h (
            then_live-StopsAs (observe_drain_cutoff (interfere l)) _ _ λ _ l2.
              then_live-StopsAs
                (live_declaration unwinds o declaration l2.core.next_work (with_core next_work l2))
                _ _ (λ _ l3. each-StopsAs o issued rest l3))
      ]

  -- A cancellation cuts a Command off between any two of its declarations: when `issued`, its first
  -- declarations, were issued well and Cancel has been requested by the time of the next check, then
  -- none of the rest is issued, checked or numbered. The Command ends well, and what the owner task
  -- keeps is what it kept after `issued`.
  pub interpret_live-stops :
      (erased : ErasedCommand V) (component : ComponentId) (cause : TraceId)
      (issued rest : List (Command V)) (l : Live V)
      → into_declarations erased.command ≡ issued ++ rest
      → (live_each unwinds (origin_of erased component cause) issued l).0 ≡ ok tt
      → is_cancelling
          (interfere (live_each unwinds (origin_of erased component cause) issued l).1).scope.phase
        ≡ true
      → ((interpret_live unwinds erased component cause l).0 ≡ ok tt)
        × ((interpret_live unwinds erased component cause l).1.core
            ≡ (live_each unwinds (origin_of erased component cause) issued l).1.core)
  unfolding interpret_live
  interpret_live-stops erased component cause issued rest l e good cancelled =
      rw e (each-StopsAs (origin_of erased component cause) issued rest l good cancelled)
