-- ===== src/Live/Ends.antt =====
-- What `run` of src/live_runtime.rs leaves behind when it returns.
use samara.Prelude.{
  map, if_ind, ◌∙◌, both, ℕ, ◌≡◌, refl, sym, subst, inl, inr, Bool, true, false, List, [], ◌∷◌,
  is_nil,
}
use samara.Errors.{RuntimeError, Result, ok, err, panic}
use samara.Controlled.Drive.{ShutdownReport}
use samara.Live.State.{ScopePhase, LiveSource, LiveCore, LiveScope}
use samara.Live.Scope.{fault_phase, fault, close, gate_stop, update_sink}
use samara.Live.Tasks.{Live, interfere, abort, abort_all, abort_tasks}
use samara.Live.Sources.{with_core, with_scope}
use samara.Live.Cancel.{
  LiveEnd, clean_report, stop_gates, clear_tables, abort_owned, abort_work, join_all, join_work,
  all_aborted, cleanup_abort, drop_receiver, end_faulted, end_closed,
}
use samara.Live.Run.{drain_finished, clear_sources, run_live}
use samara.Live.Steps.Sources.{interfere-core}
use samara.Live.Steps.Loop.{Outcome, run_live-Outcome}
use samara.Live.Phase.{Forward, Forward-trans, interfere-phase, Run-phase}

-- A phase that the owner task can still end.
abbrev pub IsOpen : ScopePhase → Type 0
IsOpen ScopePhase.running = Unit
IsOpen ScopePhase.draining = Unit
IsOpen ScopePhase.cancelling = Unit
IsOpen ScopePhase.closed = ⊥
IsOpen (ScopePhase.faulted e) = ⊥

pub Forward-IsOpen : (p q : ScopePhase) → IsOpen p → Forward p q → IsOpen q
Forward-IsOpen p q o (inl e) = subst IsOpen (sym e) o
Forward-IsOpen p q o (inr (e, inl d)) = subst IsOpen (sym d) tt
Forward-IsOpen p q o (inr (e, inr d)) = subst IsOpen (sym d) tt

Forward-faulted :
    (e : RuntimeError) (q : ScopePhase)
    → Forward (ScopePhase.faulted e) q
    → q ≡ ScopePhase.faulted e
Forward-faulted e q (inl h) = h
Forward-faulted e q (inr h) = cc

Forward-closed : (q : ScopePhase) → Forward ScopePhase.closed q → q ≡ ScopePhase.closed
Forward-closed q (inl h) = h
Forward-closed q (inr h) = cc

fault_phase-open :
    (e : RuntimeError) (p : ScopePhase) → IsOpen p → fault_phase e p ≡ ScopePhase.faulted e
unfolding fault_phase
fault_phase-open e ScopePhase.running o = refl
fault_phase-open e ScopePhase.draining o = refl
fault_phase-open e ScopePhase.cancelling o = refl
fault_phase-open e ScopePhase.closed o = absurd o
fault_phase-open e (ScopePhase.faulted x) o = absurd o

is_nil-nil : {A : Type 0} (xs : List A) → is_nil xs ≡ true → xs ≡ []
is_nil-nil [] e = refl
is_nil-nil (x ∷ xs) e = cc

module _ {V : Type 0} where
  -- No table has an entry, and the channel is gone with what was in it.
  pub record IsCleared (l : Live V) : Type 0 where
    pub sources : l.core.sources ≡ []
    pub effects : l.core.effects ≡ []
    pub requests : l.core.requests ≡ []
    pub timers : l.core.timers ≡ []
    pub queue : l.scope.queue ≡ []
    pub deaf : l.scope.listening ≡ false

  -- What a result of `run` says of the state that is left.
  abbrev pub IsSettled : Result ShutdownReport → Live V → Type 0
  IsSettled (ok report) l =
      (report ≡ clean_report) × (l.scope.phase ≡ ScopePhase.closed) × IsCleared l
  IsSettled (err e) l = (l.scope.phase ≡ ScopePhase.faulted e) × IsCleared l
  IsSettled panic l = Unit

  abbrev EndsSettled : LiveEnd V → Type 0
  EndsSettled (LiveEnd.returned r l) = IsSettled r l
  EndsSettled (LiveEnd.waiting l) = Unit
  EndsSettled LiveEnd.out_of_fuel = Unit

  abort_tasks-phase : (tasks : List ℕ) (s : LiveScope V) → (abort_tasks tasks s).phase ≡ s.phase
  unfolding abort_tasks abort
  abort_tasks-phase [] s = refl
  abort_tasks-phase (task ∷ rest) s = abort_tasks-phase rest (abort task s)

  abort_owned-phase : (c : LiveCore V) (s : LiveScope V) → (abort_owned c s).phase ≡ s.phase
  unfolding abort_all
  abort_owned-phase c s =
      abort_tasks-phase (map (λ t. t.task) c.timers) (abort_tasks (map (λ e. e.task) c.effects) s)
      ∙ abort_tasks-phase (map (λ e. e.task) c.effects) s

  stop_gates-phase :
      (list : List (LiveSource V)) (l : Live V)
      → Forward l.scope.phase (stop_gates list l).scope.phase
  unfolding stop_gates gate_stop update_sink
  stop_gates-phase [] l = inl refl
  stop_gates-phase (s ∷ rest) l =
      Forward-trans l.scope.phase (interfere l).scope.phase _ (interfere-phase l)
        (stop_gates-phase rest _)

  abbrev NoEntries : LiveCore V → Type 0
  NoEntries c = (c.sources ≡ []) × (c.effects ≡ []) × (c.requests ≡ []) × (c.timers ≡ [])

  pub abort_work-phase : (l : Live V) → Forward l.scope.phase (abort_work l).scope.phase
  unfolding abort_work
  abort_work-phase l =
      let stopped = stop_gates l.core.sources l in
      let aborted = abort_owned stopped.core stopped.scope in
      Forward-trans l.scope.phase stopped.scope.phase _ (stop_gates-phase l.core.sources l) (
        subst (λ p. Forward p (abort_work l).scope.phase)
          (abort_owned-phase stopped.core stopped.scope)
          (interfere-phase
            (with_core clear_tables (with_scope (abort_owned stopped.core) stopped))))

  pub join_work-phase : (l : Live V) → Forward l.scope.phase (join_work l).scope.phase
  unfolding join_work
  join_work-phase l = interfere-phase (with_scope join_all l)

  abort_work-NoEntries : (l : Live V) → NoEntries (abort_work l).core
  unfolding abort_work
  abort_work-NoEntries l =
      let stopped = stop_gates l.core.sources l in
      subst NoEntries
        (sym
          (interfere-core (with_core clear_tables (with_scope (abort_owned stopped.core) stopped))))
        (refl, refl, refl, refl)

  join_work-NoEntries : (l : Live V) → NoEntries l.core → NoEntries (join_work l).core
  unfolding join_work
  join_work-NoEntries l h = subst NoEntries (sym (interfere-core (with_scope join_all l))) h

  -- How a clean-up ends: with what follows it, in a state without entries and with the phase it found
  -- or a later one, or with a wait.
  cleanup_abort-ends :
      (P : LiveEnd V → Type 0) (l : Live V) (k : Live V → LiveEnd V)
      → ((m : Live V) → P (LiveEnd.waiting m))
      → ((m : Live V) → Forward l.scope.phase m.scope.phase → NoEntries m.core → P (k m))
      → P (cleanup_abort l k)
  unfolding cleanup_abort
  cleanup_abort-ends P l k waits ends =
      if_ind P (all_aborted (abort_work l).scope)
        (λ _.
          ends (join_work (abort_work l))
            (Forward-trans l.scope.phase (abort_work l).scope.phase _ (abort_work-phase l)
              (join_work-phase (abort_work l)))
            (join_work-NoEntries (abort_work l) (abort_work-NoEntries l)))
        (λ _. waits (abort_work l))

  cleared :
      (l : Live V) (s : LiveScope V)
      → NoEntries l.core
      → IsCleared (record l { scope = drop_receiver s })
  cleared l s e = record {
    sources = e.0;
    effects = e.1;
    requests = e.2;
    timers = e.3;
    queue = refl;
    deaf = refl;
  }

  end_faulted-settles :
      (e : RuntimeError) (l : Live V) → IsOpen l.scope.phase → EndsSettled (end_faulted e l)
  unfolding end_faulted fault
  end_faulted-settles e l o =
      let l1 = with_scope (fault e) (interfere l) in
      let now =
        fault_phase-open e (interfere l).scope.phase
          (Forward-IsOpen l.scope.phase _ o (interfere-phase l)) in
      cleanup_abort-ends EndsSettled l1 (λ m. LiveEnd.returned (err e) (with_scope drop_receiver m))
        (λ _. tt)
        λ m f empty. (
          Forward-faulted e m.scope.phase (subst (λ p. Forward p m.scope.phase) now f),
          cleared m m.scope empty,
        )

  end_closed-settles : (l : Live V) → NoEntries l.core → EndsSettled (end_closed l)
  unfolding end_closed close
  end_closed-settles l e = (
    refl,
    refl,
    cleared (interfere l) (close (interfere l).scope) (subst NoEntries (sym (interfere-core l)) e),
  )

  drained : (l : Live V) → drain_finished l ≡ true → NoEntries (with_core clear_sources l).core
  unfolding drain_finished
  drained l e =
      let effects = both _ _ (both _ _ e).1 in
      let requests = both _ _ effects.1 in
      let timers = both _ _ requests.1 in
      (
        refl,
        is_nil-nil l.core.effects effects.0,
        is_nil-nil l.core.requests requests.0,
        is_nil-nil l.core.timers timers.0,
      )

  Outcome-settles :
      (l : Live V) (e : LiveEnd V) → IsOpen l.scope.phase → Outcome l e → EndsSettled e
  Outcome-settles l e o (Outcome.waits h) = tt
  Outcome-settles l e o (Outcome.exhausted) = tt
  Outcome-settles l e o (Outcome.panics h) = tt
  Outcome-settles l e o (Outcome.faults {m} x h) =
      end_faulted-settles x m (Forward-IsOpen l.scope.phase m.scope.phase o (Run-phase h))
  Outcome-settles l e o (Outcome.cancels {m} h) =
      cleanup_abort-ends EndsSettled m end_closed (λ _. tt)
        (λ x _ empty. end_closed-settles x empty)
  Outcome-settles l e o (Outcome.drains {m} h d) =
      end_closed-settles (with_core clear_sources m) (drained m d)

  -- When `run` of a scope that was still open returns Ok, its report is clean and the scope is
  -- closed; when it returns an error, the scope is faulted with that very error. Either way every
  -- table is empty, the channel's receiver is gone and nothing is left in it.
  pub run_live-IsSettled :
      (unwinds : V → Bool) (fuel : ℕ) (l m : Live V) (r : Result ShutdownReport)
      → IsOpen l.scope.phase
      → run_live unwinds fuel l ≡ LiveEnd.returned r m
      → IsSettled r m
  run_live-IsSettled unwinds fuel l m r o e =
      subst EndsSettled e
        (Outcome-settles l (run_live unwinds fuel l) o (run_live-Outcome unwinds fuel l))
