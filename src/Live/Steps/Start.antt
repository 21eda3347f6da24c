-- ===== src/Live/Steps/Start.antt =====
-- `initialize` of src/live_runtime.rs is made of actions.
use samara.Prelude.{ℕ, Option, none, some, Bool, List, [], ◌∷◌, get_elem?, if_ind, option_ind}
use samara.Values.{TraceId}
use samara.Ids.{ComponentId}
use samara.Reconciler.{Reconciled, changes, duplicate}
use samara.Kernel.{ComponentKernel, ErasedCommand, reconcile_subscriptions, take_initial_command}
use samara.Controlled.Init.{sort_indexed, indexed}
use samara.Live.Scope.{is_cancelling}
use samara.Live.Tasks.{Live, interfere}
use samara.Live.Sources.{with_core}
use samara.Live.Changes.{observe_drain_cutoff, change_all}
use samara.Live.Commands.{interpret_live}
use samara.Live.Ingress.{
  set_kernel, start_command, start_projection, start_kernel, start_each, start_live,
}
use samara.Live.Steps.{Step, Run, Runs}
use samara.Live.Steps.Rules.{Run-trans, one, interfere-Run, then_live-Runs}
use samara.Live.Steps.Sources.{observe_drain_cutoff-Runs, change_all-Runs}
use samara.Live.Steps.Commands.{interpret_live-Runs}

module _ {V : Type 0} (unwinds : V → Bool) where
  set_kernel-Step :
      (index : ℕ) (k : ComponentKernel V) (l : Live V) → Step l (with_core (set_kernel index k) l)
  set_kernel-Step index k l = Step.started index k

  start_command-Runs :
      (command : Option (ErasedCommand V)) (id : ComponentId) (work : TraceId) (l : Live V)
      → Runs l (start_command unwinds command id work l)
  unfolding start_command
  start_command-Runs none id work l = Run.stay
  start_command-Runs (some command) id work l = interfere-Run (
      if_ind (Runs (interfere l)) (is_cancelling (interfere l).scope.phase) (λ _. Run.stay)
        λ _.
          then_live-Runs (interfere l) (interpret_live unwinds command id work (interfere l)) _
            (interpret_live-Runs unwinds command id work (interfere l)) (λ _ m. Run.stay))

  start_projection-Runs :
      (k : ComponentKernel V) (command : Option (ErasedCommand V)) (work : TraceId)
      (r : Reconciled V) (l : Live V)
      → Runs l (start_projection unwinds k command work r l)
  unfolding start_projection
  start_projection-Runs k command work (duplicate id) l = Run.stay
  start_projection-Runs k command work (changes list) l =
      let l1 = interfere l in
      interfere-Run (
        if_ind (Runs l1) (is_cancelling l1.scope.phase) (λ _. Run.stay)
          λ _. then_live-Runs l1 (observe_drain_cutoff l1) _ (observe_drain_cutoff-Runs l1) λ _ l2.
            then_live-Runs l2 (change_all k.id k.message_type k.message_type_name list work l2) _
              (change_all-Runs k.id k.message_type k.message_type_name list work l2)
              (λ _ l3. start_command-Runs command k.id work l3))

  start_kernel-Runs :
      (index : ℕ) (k : ComponentKernel V) (l : Live V) → Runs l (start_kernel unwinds index k l)
  unfolding start_kernel
  start_kernel-Runs index k l =
      let (k1, result) = reconcile_subscriptions k in
      let (k2, command) = take_initial_command k1 in
      Run-trans (Run-trans (one Step.worked) (one (set_kernel-Step index k2 _)))
        (start_projection-Runs k _ l.core.next_work result _)

  start_each-Runs :
      (list : List (ℕ × ComponentId)) (l : Live V) → Runs l (start_each unwinds list l)
  unfolding start_each
  start_each-Runs [] l = Run.stay
  start_each-Runs ((index, id) ∷ rest) l =
      let l1 = interfere l in
      interfere-Run (
        if_ind (Runs l1) (is_cancelling l1.scope.phase) (λ _. Run.stay)
          λ _.
            option_ind (Runs l1) (get_elem? l1.core.program.components index) (λ _. Run.stay)
              λ k _.
                then_live-Runs l1 (start_kernel unwinds index k l1) _ (start_kernel-Runs index k l1)
                  λ more l2. if_ind (Runs l2) more (λ _. start_each-Runs rest l2) (λ _. Run.stay))

  pub start_live-Runs : (l : Live V) → Runs l (start_live unwinds l)
  unfolding start_live
  start_live-Runs l =
      then_live-Runs l (observe_drain_cutoff l) _ (observe_drain_cutoff-Runs l)
        (λ _ l1. start_each-Runs (sort_indexed (indexed 0 l1.core.program.components)) l1)
