-- ===== src/Live/Returns.antt =====
-- The owner task of src/live_runtime.rs returns once Cancel has been requested.
use samara.Prelude.{
  not_both, ℕ, zero, suc, ◌+◌, ◌≡◌, ◌<◌, refl, sym, subst, ◌∙◌, ap, Bool, false, Option, none, some,
  [], find, length, arith, if_ind, option_ind, list_ind,
}
use samara.Values.{EffectOutcome}
use samara.Errors.{RuntimeError, Result, ok, err, panic}
use samara.Live.State.{LiveEvent, LiveMessage, LiveEffect, TaskContext, TaskOutcome, LiveScope}
use samara.Live.Scope.{is_cancelling, fault}
use samara.Live.Tasks.{Live, interfere}
use samara.Live.Sources.{with_core, with_scope, next_work}
use samara.Live.Changes.{stop_each}
use samara.Live.Commands.{offer}
use samara.Live.Ingress.{is_live_effect, drop_effect, map_outcome, process_effect}
use samara.Live.Cancel.{
  LiveEnd, drop_receiver, end_faulted, end_closed, task_fault, set_exited, set_queue, or_end,
  unless_fault, cancel_sources, cancel_joins, tasks_left, retain_pre_cancel, cancel_events,
  finish_cancel,
}
use samara.Live.Aborts.{cleanup_abort-ends_with}
use samara.Live.Run.{live_loop, run_live}
use samara.Live.Cancelling.{IsCancelled, interfere-Holds, interfere-cancelling, accept_finite-Holds}

module _ {V : Type 0} where
  -- `run` is over: neither is there a wait nor does the fuel end first.
  abbrev pub HasReturned : LiveEnd V → Type 0
  HasReturned (LiveEnd.returned r l) = Unit
  HasReturned (LiveEnd.waiting l) = ⊥
  HasReturned LiveEnd.out_of_fuel = ⊥

  -- A state of a cancelled scope with fewer than `n` events to take.
  abbrev HasFewer : ℕ → Live V → Type 0
  HasFewer n l = IsCancelled l.scope × (length l.scope.queue < n)

  -- A fault ends `run`: its clean-up aborted every task that it waits for.
  end_faulted-HasReturned : (e : RuntimeError) (l : Live V) → HasReturned (end_faulted e l)
  unfolding end_faulted
  end_faulted-HasReturned e l =
      cleanup_abort-ends_with HasReturned (with_scope (fault e) (interfere l))
        (λ m. LiveEnd.returned (err e) (with_scope drop_receiver m)) tt

  or_end-HasReturned :
      {A : Type 0} (P : Live V → Type 0) (r : Result A × Live V) (k : Live V → LiveEnd V)
      → P r.1
      → ((m : Live V) → P m → HasReturned (k m))
      → HasReturned (or_end r k)
  unfolding end_faulted
  or_end-HasReturned P (ok a, m) k p f = f m p
  or_end-HasReturned P (err e, m) k p f = end_faulted-HasReturned e m
  or_end-HasReturned P (panic, m) k p f = tt

  unless_fault-HasReturned :
      (P : Live V → Type 0) (r : Option RuntimeError × Live V) (k : Live V → LiveEnd V)
      → P r.1
      → ((m : Live V) → P m → HasReturned (k m))
      → HasReturned (unless_fault r k)
  unfolding end_faulted
  unless_fault-HasReturned P (none, m) k p f = f m p
  unless_fault-HasReturned P (some e, m) k p f = end_faulted-HasReturned e m

  cancel_sources-HasReturned : (l : Live V) → HasReturned (cancel_sources l)
  unfolding cancel_sources end_closed
  cancel_sources-HasReturned l =
      or_end-HasReturned (λ _. Unit) (stop_each false [] l.core.sources l) _ tt
        (λ m _. cleanup_abort-ends_with HasReturned m end_closed tt)

  task_fault-scope :
      (context : TaskContext) (outcome : TaskOutcome) (l : Live V)
      → (task_fault (record { context = context; outcome = outcome }) l).1.scope ≡ l.scope
  unfolding task_fault
  task_fault-scope context (TaskOutcome.finished none) l = refl
  task_fault-scope context (TaskOutcome.finished (some reason)) l = refl
  task_fault-scope context TaskOutcome.panicked l = refl
  task_fault-scope context TaskOutcome.cancelled l = refl
  task_fault-scope context TaskOutcome.failed l = refl

  abbrev HasTasks : ℕ → LiveScope V → Type 0
  HasTasks n s = IsCancelled s × (length s.running + length s.exited < n)

  -- Every exit that is joined was a task of the scope, and none is added.
  cancel_joins-HasReturned :
      (n : ℕ) (l : Live V) → HasTasks n l.scope → HasReturned (cancel_joins n l)
  unfolding cancel_joins
  cancel_joins-HasReturned zero l h = absurd (omega (arith, h.1))
  cancel_joins-HasReturned (suc n) l h =
      let same = interfere-Holds l h.0 in
      list_ind HasReturned (interfere l).scope.exited
        (λ _. cancel_sources-HasReturned (interfere l))
        λ exit rest e.
          unless_fault-HasReturned (λ m. HasTasks n m.scope)
            (task_fault exit (with_scope (set_exited rest) (interfere l))) (cancel_joins n)
            (subst (HasTasks n) (sym (task_fault-scope exit.context exit.outcome _))
              (same.0 ∙ h.0, omega (arith, h.1, same.2, ap length e)))
            (cancel_joins-HasReturned n)

  offer-HasFewer :
      (n : ℕ) (message : LiveMessage V) (l : Live V) → HasFewer n l → HasFewer n (offer message l).1
  unfolding offer
  offer-HasFewer n message l h =
      let same = interfere-Holds l h.0 in
      rw (accept_finite-Holds (LiveEvent.message message) (interfere l).scope (same.0 ∙ h.0))
        (same.0 ∙ h.0, subst (λ q. length q < n) (sym same.1) h.1)

module _ {V : Type 0} (unwinds : V → Bool) where
  map_outcome-HasFewer :
      (n : ℕ) (e : LiveEffect V) (outcome : EffectOutcome V) (l : Live V)
      → HasFewer n l
      → HasFewer n (map_outcome unwinds e outcome l).1
  unfolding map_outcome
  map_outcome-HasFewer n e outcome l h =
      option_ind (λ (r : Result Unit × Live V). HasFewer n r.1) e.mapper (λ _. h)
        λ mapper _.
          if_ind (λ (r : Result Unit × Live V). HasFewer n r.1) (unwinds (mapper outcome)) (λ _. h)
            (λ _. offer-HasFewer n _ (with_core next_work l) h)

  process_effect-HasFewer :
      (n id : ℕ) (outcome : EffectOutcome V) (l : Live V)
      → HasFewer n l
      → HasFewer n (process_effect unwinds id outcome l).1
  unfolding process_effect
  process_effect-HasFewer n id outcome l h =
      option_ind (λ (r : Result Unit × Live V). HasFewer n r.1)
        (find (is_live_effect id) l.core.effects) (λ _. h)
        (λ e _. map_outcome-HasFewer n e outcome (with_core (drop_effect id) l) h)

  retain_pre_cancel-HasFewer :
      (n : ℕ) (event : LiveEvent V) (l : Live V)
      → HasFewer n l
      → HasFewer n (retain_pre_cancel unwinds event l).1
  unfolding retain_pre_cancel
  retain_pre_cancel-HasFewer n (LiveEvent.effect_outcome id outcome) l h =
      process_effect-HasFewer n id outcome l h
  retain_pre_cancel-HasFewer n (LiveEvent.message m) l h = h
  retain_pre_cancel-HasFewer n (LiveEvent.port_ingress p) l h = h
  retain_pre_cancel-HasFewer n (LiveEvent.source_event stamp type event) l h = h
  retain_pre_cancel-HasFewer n (LiveEvent.timer_fired id m) l h = h
  retain_pre_cancel-HasFewer n (LiveEvent.shutdown mode) l h = h

  cancel_events-HasReturned :
      (n : ℕ) (l : Live V) → HasFewer n l → HasReturned (cancel_events unwinds n l)
  unfolding cancel_events
  cancel_events-HasReturned zero l h = absurd (omega (arith, h.1))
  cancel_events-HasReturned (suc n) l h =
      let same = interfere-Holds l h.0 in
      list_ind HasReturned (interfere l).scope.queue
        (λ _.
          cancel_joins-HasReturned (suc (tasks_left (interfere l))) (interfere l)
            (same.0 ∙ h.0, omega arith))
        λ event rest e.
          or_end-HasReturned (HasFewer n)
            (retain_pre_cancel unwinds event (with_scope (set_queue rest) (interfere l)))
            (cancel_events unwinds n)
            (retain_pre_cancel-HasFewer n event _
              (same.0 ∙ h.0, omega (arith, h.1, ap length e, ap length same.1)))
            (cancel_events-HasReturned n)

  finish_cancel-HasReturned :
      (l : Live V) → IsCancelled l.scope → HasReturned (finish_cancel unwinds none l)
  unfolding finish_cancel
  finish_cancel-HasReturned l c =
      cancel_events-HasReturned (suc (length l.scope.queue)) l (c, omega arith)

  -- When Cancel was requested before `run` begins, or before a round of its loop begins, the owner task
  -- returns in that round: it never waits for a task that it has not aborted, nor needs more fuel,
  -- whatever is queued, whichever tasks run and whatever the other threads still do.
  pub live_loop-HasReturned :
      (n : ℕ) (l : Live V)
      → IsCancelled l.scope
      → HasReturned (run_live unwinds n l) × HasReturned (live_loop unwinds (suc n) l)
  unfolding live_loop run_live
  live_loop-HasReturned n l c =
      let ends = finish_cancel-HasReturned (interfere l) ((interfere-Holds l c).0 ∙ c) in
      (
        if_ind HasReturned (is_cancelling (interfere l).scope.phase) (λ _. ends)
            (λ h. absurd (not_both (interfere-cancelling l c) h)),
        if_ind HasReturned (is_cancelling (interfere l).scope.phase) (λ _. ends)
            (λ h. absurd (not_both (interfere-cancelling l c) h)),
      )
