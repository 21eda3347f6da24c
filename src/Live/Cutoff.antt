-- ===== src/Live/Cutoff.antt =====
-- After the drain cutoff, or once the scope no longer runs, LiveCore starts no Source.
use samara.Prelude.{
  suc, ◌≡◌, ◌≤◌, refl, sym, subst, ◌∙◌, ap, ◌⊎◌, inl, inr, Bool, true, false, List, [], ◌∷◌, length,
  length-append, remove_first, update_first, arith, if_ind,
}
use samara.Live.State.{ScopePhase, LiveMessage}
use samara.Live.Scope.{is_running}
use samara.Live.Tasks.{Live, spawn_owned}
use samara.Live.Sources.{next_work}
use samara.Live.Commands.{push_live_request, drop_request, issue_effect, issue_timer}
use samara.Live.Deliver.{put_live_kernel, process_live_message}
use samara.Live.Ingress.{set_kernel, drop_effect, start_live}
use samara.Live.Run.{drop_timer}
use samara.Live.Steps.{Step, Run}
use samara.Live.Steps.Sources.{interfere-core}
use samara.Live.Steps.Deliver.{process_live_message-Runs}
use samara.Live.Steps.Start.{start_live-Runs}
use samara.Live.Phase.{Forward, Step-phase}

running_runs : ¬ (is_running ScopePhase.running ≡ false)
unfolding is_running
running_runs f = cc

-- A scope that ran may stop running; one that does not run never runs again.
stays_stopped : (p q : ScopePhase) → is_running p ≡ false → Forward p q → is_running q ≡ false
stays_stopped p q h (inl e) = ap is_running e ∙ h
stays_stopped p q h (inr e) = absurd (running_runs (sym (ap is_running e.0) ∙ h))

length-remove : {A : Type 0} (p : A → Bool) (xs : List A) → length (remove_first p xs) ≤ length xs
length-remove p [] = omega arith
length-remove p (x ∷ xs) =
    if_ind (λ l. length l ≤ suc (length xs)) (p x) (λ _. omega arith)
      (λ _. omega (arith, length-remove p xs))

pub length-update :
    {A : Type 0} (p : A → Bool) (f : A → A) (xs : List A) → length (update_first p f xs) ≡ length xs
length-update p f [] = refl
length-update p f (x ∷ xs) =
    if_ind (λ l. length l ≡ suc (length xs)) (p x) (λ _. refl) (λ _. ap suc (length-update p f xs))

module _ {V : Type 0} where
  -- The drain cutoff is over, or the scope does not run.
  abbrev pub IsCutOff : Live V → Type 0
  IsCutOff l = (l.core.draining ≡ true) ⊎ (is_running l.scope.phase ≡ false)

  -- No generation was taken and no entry added.
  abbrev pub StartsNone : Live V → Live V → Type 0
  StartsNone l m =
      (m.core.next_generation ≡ l.core.next_generation)
      × (length m.core.sources ≤ length l.core.sources)

  abbrev SameCore : Live V → Live V → Type 0
  SameCore l m = StartsNone l m × (l.core.draining ≡ true → m.core.draining ≡ true)

  Step-core : {l m : Live V} → Step l m → IsCutOff l → SameCore l m
  unfolding spawn_owned issue_effect issue_timer push_live_request drop_request drop_effect
      drop_timer next_work set_kernel put_live_kernel
  Step-core {l} (Step.others) c =
      subst
        (λ core.
          ((core.next_generation ≡ l.core.next_generation)
            × (length core.sources ≤ length l.core.sources))
          × (l.core.draining ≡ true → core.draining ≡ true))
        (sym (interfere-core l)) ((refl, omega arith), λ h. h)
  Step-core (Step.failed_start component s terminal hd hr) c =
      absurd (elim c [ inl h ↦ cc | inr h ↦ cc ])
  Step-core (Step.opened component s mt mn work hook hd hr) c =
      absurd (elim c [ inl h ↦ cc | inr h ↦ cc ])
  Step-core {l} (Step.updated_source p f k) c =
      ((refl, omega (arith, length-update p f l.core.sources)), λ h. h)
  Step-core {l} (Step.updated_at f before rest s k e) c = (
    (
      refl,
      omega
          (arith, length-append before (f s ∷ rest), length-append before (s ∷ rest), ap length e),
    ),
    λ h. h,
  )
  Step-core {l} (Step.dropped_source p) c = ((refl, length-remove p l.core.sources), λ h. h)
  Step-core (Step.cut_off) c = ((refl, omega arith), λ h. refl)
  Step-core _ c = ((refl, omega arith), λ h. h)

  Step-IsCutOff : {l m : Live V} → Step l m → IsCutOff l → IsCutOff m
  Step-IsCutOff s (inl h) = inl ((Step-core s (inl h)).1 h)
  Step-IsCutOff {l} {m} s (inr h) = inr (stays_stopped l.scope.phase m.scope.phase h (Step-phase s))

  pub Run-StartsNone : {l m : Live V} → Run l m → IsCutOff l → StartsNone l m × IsCutOff m
  Run-StartsNone (Run.stay) c = ((refl, omega arith), c)
  Run-StartsNone (Run.then_step h s) c =
      let before = Run-StartsNone h c in
      let after = (Step-core s before.1).0 in
      ((after.0 ∙ before.0.0, omega (arith, after.1, before.0.1)), Step-IsCutOff s before.1)

-- After the drain cutoff, or once the scope left Running, neither the delivery of a Message nor what
-- is left of the initialization takes a Source generation or adds an entry to the table of Sources,
-- whatever the Program, its update and the other threads do, and the cutoff lasts.
pub process_live_message-StartsNone :
    {V : Type 0} (unwinds : V → Bool) (message : LiveMessage V) (l : Live V)
    → IsCutOff l
    → StartsNone l (process_live_message unwinds message l).1
      × IsCutOff (process_live_message unwinds message l).1
      × StartsNone l (start_live unwinds l).1
      × IsCutOff (start_live unwinds l).1
process_live_message-StartsNone unwinds message l c =
    let delivered = Run-StartsNone (process_live_message-Runs unwinds message l) c in
    let begun = Run-StartsNone (start_live-Runs unwinds l) c in
    (delivered.0, delivered.1, begun.0, begun.1)
