-- ===== src/Live/Lifecycle.antt =====
-- The whole life of a live scope of src/live_runtime.rs: the owner task's actions, its fault or its
-- close, its clean-up, and what handles and Drivers do before and after the task has ended.
use samara.Prelude.{ℕ, ◌≡◌, ◌<◌, ◌⊎◌, inl, inr, refl, sym, subst, arith}
use samara.Errors.{RuntimeError, ok, err, panic}
use samara.Live.State.{ScopePhase}
use samara.Live.Scope.{fault_phase, fault, close}
use samara.Live.Tasks.{Live}
use samara.Live.Sources.{with_core, with_scope}
use samara.Live.Cancel.{LiveEnd, abort_work, join_work, drop_receiver}
use samara.Live.Run.{clear_sources}
use samara.Live.Steps.{Step, Run}
use samara.Live.Phase.{Forward, Step-phase}
use samara.Live.Ends.{IsOpen, abort_work-phase, join_work-phase}

-- How far a phase is.
abbrev pub rank : ScopePhase → ℕ
rank ScopePhase.running = 0
rank ScopePhase.draining = 1
rank ScopePhase.cancelling = 1
rank ScopePhase.closed = 2
rank (ScopePhase.faulted e) = 2

-- The very same phase, or one that is further: a fault keeps its error, a shutdown its policy, and
-- what is closed or faulted stays so.
abbrev pub Later : ScopePhase → ScopePhase → Type 0
Later p q = (q ≡ p) ⊎ (rank p < rank q)

pub Later-trans : (p q r : ScopePhase) → Later p q → Later q r → Later p r
Later-trans p q r (inl e) h = subst (λ x. Later x r) e h
Later-trans p q r (inr l) (inl e) = inr (subst (λ x. rank p < rank x) (sym e) l)
Later-trans p q r (inr l) (inr m) = inr (omega arith)

Later-of_Forward : (p q : ScopePhase) → Forward p q → Later p q
Later-of_Forward p q (inl e) = inl e
Later-of_Forward p q (inr (e, inl d)) =
    subst (λ x. Later x q) (sym e) (subst (Later ScopePhase.running) (sym d) (inr (omega arith)))
Later-of_Forward p q (inr (e, inr d)) =
    subst (λ x. Later x q) (sym e) (subst (Later ScopePhase.running) (sym d) (inr (omega arith)))

Later-fault : (e : RuntimeError) (p : ScopePhase) → Later p (fault_phase e p)
unfolding fault_phase
Later-fault e ScopePhase.running = inr (omega arith)
Later-fault e ScopePhase.draining = inr (omega arith)
Later-fault e ScopePhase.cancelling = inr (omega arith)
Later-fault e ScopePhase.closed = inl refl
Later-fault e (ScopePhase.faulted x) = inl refl

Later-closed : (p : ScopePhase) → IsOpen p → Later p ScopePhase.closed
Later-closed ScopePhase.running o = inr (omega arith)
Later-closed ScopePhase.draining o = inr (omega arith)
Later-closed ScopePhase.cancelling o = inr (omega arith)
Later-closed ScopePhase.closed o = absurd o
Later-closed (ScopePhase.faulted e) o = absurd o

module _ {V : Type 0} where
  -- A life from `l` on. The owner task faults the scope whenever it likes and closes one that is open.
  pub data Life (l : Live V) : Live V → Type 0 where
    begins : Life l l
    acts : {m r : Live V} → Life l m → Step m r → Life l r
    faults : {m : Live V} (e : RuntimeError) → Life l m → Life l (with_scope (fault e) m)
    closes : {m : Live V} → IsOpen m.scope.phase → Life l m → Life l (with_scope close m)
    aborts : {m : Live V} → Life l m → Life l (abort_work m)
    joins : {m : Live V} → Life l m → Life l (join_work m)
    clears : {m : Live V} → Life l m → Life l (with_core clear_sources m)
    drops : {m : Live V} → Life l m → Life l (with_scope drop_receiver m)

  -- The phase of a live scope never moves back in its whole life, neither before nor after the owner
  -- task has ended.
  pub Life-Later : {l m : Live V} → Life l m → Later l.scope.phase m.scope.phase
  unfolding fault close
  Life-Later (Life.begins) = inl refl
  Life-Later (Life.acts h s) =
      Later-trans _ _ _ (Life-Later h) (Later-of_Forward _ _ (Step-phase s))
  Life-Later (Life.faults e h) = Later-trans _ _ _ (Life-Later h) (Later-fault e _)
  Life-Later (Life.closes o h) = Later-trans _ _ _ (Life-Later h) (Later-closed _ o)
  Life-Later (Life.aborts {m} h) =
      Later-trans _ _ _ (Life-Later h) (Later-of_Forward _ _ (abort_work-phase m))
  Life-Later (Life.joins {m} h) =
      Later-trans _ _ _ (Life-Later h) (Later-of_Forward _ _ (join_work-phase m))
  Life-Later (Life.clears h) = Life-Later h
  Life-Later (Life.drops h) = Life-Later h

  pub Life-Run : {l m : Live V} → Run l m → Life l m
  Life-Run (Run.stay) = Life.begins
  Life-Run (Run.then_step h s) = Life.acts (Life-Run h) s

  -- What is left of a run is a state of the life of its scope.
  abbrev pub Leaves : Live V → LiveEnd V → Type 0
  Leaves l (LiveEnd.returned (ok report) m) = Life l m
  Leaves l (LiveEnd.returned (err e) m) = Life l m
  Leaves l (LiveEnd.returned panic m) = Life l m
  Leaves l (LiveEnd.waiting m) = Life l m
  Leaves l LiveEnd.out_of_fuel = Unit
