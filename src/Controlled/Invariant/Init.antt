-- ===== src/Controlled/Invariant/Init.antt =====
-- The core that the builder starts with is well formed.
use samara.Prelude.{
  ℕ, ◌<◌, Option, none, some, List, [], ◌∷◌, length, is_some, get_elem?, if_ind, option_ind, arith,
}
use mathlib.Core.Option
use samara.Values.{TraceId}
use samara.Ids.{ComponentId}
use samara.Errors.{Result, ok, err, panic}
use samara.Reconciler.{Reconciled, changes, duplicate}
use samara.Kernel.{
  ComponentKernel, ErasedCommand, erase_command, take_initial_command, reconcile_subscriptions,
}
use samara.Program.{Program}
use samara.Controlled.State.{ControlledBindings, ControlledCore, empty_core}
use samara.Controlled.Sources.{and_then}
use samara.Controlled.Init.{
  set_component, interpret_startup, finish_initialization, start_component, initialize_one,
  initialize_each, initialize, new_core,
}
use samara.Controlled.Invariant.{Inv, Good}
use samara.Controlled.Invariant.Rules.{
  ok-Good, fail_with-Good, Good-after, and_then-Good, push_trace-Good,
}
use samara.Controlled.Invariant.Sources.{apply_subscription_changes-Good}
use samara.Controlled.Invariant.Commands.{interpret_command-Good}

module _ {V : Type 0} where
  set_component-Inv :
      (index : ℕ) (k : ComponentKernel V) (c : ControlledCore V)
      → Inv c
      → Inv (set_component index k c)
  unfolding set_component
  set_component-Inv index k c v = record {
    causal = v.causal;
    chronological = v.chronological;
    work_caused = v.work_caused;
    effects_requested = v.effects_requested;
    tickets = v.tickets;
    effect_ids = v.effect_ids;
    correlations = v.correlations;
    generations = v.generations;
    replies_mapped = v.replies_mapped;
  }

  interpret_startup-Good :
      (k : ComponentKernel V) (command : Option (ErasedCommand V)) (cause : TraceId)
      (c : ControlledCore V)
      → Inv c
      → cause < length c.trace
      → Good c (interpret_startup k command cause c)
  unfolding interpret_startup
  interpret_startup-Good k none cause c v w = ok-Good tt c c v (omega arith)
  interpret_startup-Good k (some command) cause c v w =
      interpret_command-Good command k.id cause c v w

  finish_initialization-Good :
      (k : ComponentKernel V) (command : Option (ErasedCommand V)) (cause : TraceId)
      (result : Reconciled V) (c : ControlledCore V)
      → Inv c
      → cause < length c.trace
      → Good c (finish_initialization k command cause result c)
  unfolding finish_initialization
  finish_initialization-Good k command cause (duplicate id) c v w = fail_with-Good _ _ _ _ c v w
  finish_initialization-Good k command cause (changes list) c v w =
      and_then-Good c _ (λ _ c'. interpret_startup k command cause c')
        (apply_subscription_changes-Good k.id k.message_type k.message_type_name list cause c v w)
        λ _ c' v' g. interpret_startup-Good k command cause c' v' (omega arith)

  start_component-Good :
      (index : ℕ) (k : ComponentKernel V) (cause : TraceId) (c : ControlledCore V)
      → Inv c
      → cause < length c.trace
      → Good c (start_component index k cause c)
  unfolding start_component set_component
  start_component-Good index k cause c v w =
      let after = (take_initial_command (reconcile_subscriptions k).0).0 in
      Good-after c (set_component index after c) _ (omega arith) (
        finish_initialization-Good k
          (Option.map (erase_command k) (take_initial_command (reconcile_subscriptions k).0).1)
          cause (reconcile_subscriptions k).1 (set_component index after c)
          (set_component-Inv index after c v) w)

  initialize_one-Good :
      (index : ℕ) (k : ComponentKernel V) (c : ControlledCore V)
      → Inv c
      → Good c (initialize_one index k c)
  unfolding initialize_one
  initialize_one-Good index k c v =
      push_trace-Good none _ c (start_component index k) v tt
        λ work c' v' w g. start_component-Good index k work c' v' w

  and_then-Inv :
      {A B : Type 0} (r : Result A × ControlledCore V)
      (k : A → ControlledCore V → Result B × ControlledCore V)
      → Inv r.1
      → ((a : A) (c' : ControlledCore V) → Inv c' → Inv (k a c').1)
      → Inv (and_then r k).1
  and_then-Inv (ok a, c') k v h = h a c' v
  and_then-Inv (err e, c') k v h = v
  and_then-Inv (panic, c') k v h = v

  initialize_each-Inv :
      (order : List (ℕ × ComponentId)) (c : ControlledCore V)
      → Inv c
      → Inv (initialize_each order c).1
  unfolding initialize_each
  initialize_each-Inv [] c v = v
  initialize_each-Inv ((index, id) ∷ rest) c v =
      if_ind (λ (r : Result Unit × ControlledCore V). Inv r.1) (is_some c.fault) (λ _. v)
        λ _.
          option_ind (λ (r : Result Unit × ControlledCore V). Inv r.1)
            (get_elem? c.program.components index) (λ _. v)
            λ k _.
              and_then-Inv (initialize_one index k c) _ (initialize_one-Good index k c v).inv
                (λ _ c' v'. initialize_each-Inv rest c' v')

  empty_core-Inv : (p : Program V) (b : ControlledBindings V) → Inv (empty_core p b)
  unfolding empty_core
  empty_core-Inv p b = record {
    causal = tt;
    chronological = omega arith;
    work_caused = tt;
    effects_requested = tt;
    tickets = omega arith;
    effect_ids = omega arith;
    correlations = omega arith;
    generations = omega arith;
    replies_mapped = tt;
  }

  pub new_core-Inv : (p : Program V) (b : ControlledBindings V) → Inv (new_core p b).1
  unfolding new_core initialize
  new_core-Inv p b = initialize_each-Inv _ (empty_core p b) (empty_core-Inv p b)
