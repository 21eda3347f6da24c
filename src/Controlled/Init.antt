-- ===== src/Controlled/Init.antt =====
-- ControlledCore::new with `initialize`, and ControlledRuntimeBuilder::build of src/lib.rs.
pub mod Order
use samara.Prelude.{
  ℕ, suc, Option, none, some, is_some, List, [], ◌∷◌, get_elem?, set, if◌then◌else◌,
}
use mathlib.Core.Option
use samara.Ids.{ComponentId, id_leb}
use samara.Values.{TraceId}
use samara.Errors.{FaultReason, HarnessReason, RuntimeError, Result, ok, err, panic}
use samara.Kernel.{
  ComponentKernel, ErasedCommand, take_initial_command, reconcile_subscriptions, erase_command,
}
use samara.Reconciler.{Reconciled, changes, duplicate}
use samara.Program.{Program}
use samara.Program.Initial.{first_reason, validate_initial_capabilities}
use samara.Controlled.State.{TraceEvent, ControlledBindings, ControlledCore, empty_core}
use samara.Controlled.Trace.{push_trace, push_root, set_fault, fail_with}
use samara.Controlled.Sources.{apply_subscription_changes, and_then}
use samara.Controlled.Commands.{interpret_command}
use samara.Controlled.Bindings.{validate}

-- `sort_by` on the identities, a stable sort.
unfoldable pub insert_indexed : ℕ × ComponentId → List (ℕ × ComponentId) → List (ℕ × ComponentId)
insert_indexed x [] = x ∷ []
insert_indexed x (y ∷ ys) = if id_leb x.1 y.1 then x ∷ y ∷ ys else y ∷ insert_indexed x ys

unfoldable pub sort_indexed : List (ℕ × ComponentId) → List (ℕ × ComponentId)
unfolding insert_indexed
sort_indexed [] = []
sort_indexed (x ∷ xs) = insert_indexed x (sort_indexed xs)

module _ {V : Type 0} where
  -- The index of each Component beside its identity.
  unfoldable pub indexed : ℕ → List (ComponentKernel V) → List (ℕ × ComponentId)
  indexed n [] = []
  indexed n (k ∷ ks) = (n, k.id) ∷ indexed (suc n) ks

  unfoldable pub set_component : ℕ → ComponentKernel V → ControlledCore V → ControlledCore V
  set_component index k c = record c {
    program = record (c.program) { components = set c.program.components index k };
  }

  -- The startup Command, if it was not taken before.
  unfoldable pub interpret_startup :
      ComponentKernel V
      → Option (ErasedCommand V)
      → ℕ
      → ControlledCore V
      → Result Unit × ControlledCore V
  unfolding interpret_command
  interpret_startup k none cause c = (ok tt, c)
  interpret_startup k (some command) cause c = interpret_command command k.id cause c

  -- From the reconciliation's result on.
  unfoldable pub finish_initialization :
      ComponentKernel V
      → Option (ErasedCommand V)
      → TraceId
      → Reconciled V
      → ControlledCore V
      → Result Unit × ControlledCore V
  unfolding set_fault apply_subscription_changes interpret_startup
  finish_initialization k command initialization (duplicate id) c =
      fail_with k.id none initialization (FaultReason.duplicate_subscription id) c
  finish_initialization k command initialization (changes list) c =
      and_then
        (apply_subscription_changes k.id k.message_type k.message_type_name list initialization c)
        (λ _ c'. interpret_startup k command initialization c')

  -- From the trace record on.
  unfoldable pub start_component :
      ℕ → ComponentKernel V → TraceId → ControlledCore V → Result Unit × ControlledCore V
  unfolding set_component finish_initialization
  start_component index k initialization c =
      let (k1, result) = reconcile_subscriptions k in
      let (k2, command) = take_initial_command k1 in
      finish_initialization k (Option.map (erase_command k) command) initialization result
        (set_component index k2 c)

  -- The body of the loop for one Component.
  unfoldable pub initialize_one :
      ℕ → ComponentKernel V → ControlledCore V → Result Unit × ControlledCore V
  unfolding push_trace start_component
  initialize_one index k c =
      let (initialization, c1) = push_root (TraceEvent.initialization k.id) c in
      start_component index k initialization c1

  -- The loop; an index that is out of range panics.
  unfoldable pub initialize_each :
      List (ℕ × ComponentId) → ControlledCore V → Result Unit × ControlledCore V
  unfolding initialize_one
  initialize_each [] c = (ok tt, c)
  initialize_each ((index, id) ∷ rest) c =
      if is_some c.fault then (ok tt, c) else elim (get_elem? c.program.components index) [
        | none ↦ (panic, c)
        | some k ↦ and_then (initialize_one index k c) (λ _ c'. initialize_each rest c')
      ]

  unfoldable pub initialize : ControlledCore V → Result Unit × ControlledCore V
  unfolding initialize_each indexed sort_indexed
  initialize c = initialize_each (sort_indexed (indexed 0 c.program.components)) c

  -- ControlledCore::new: an error in `initialize` only ends its loop.
  unfoldable pub new_core : Program V → ControlledBindings V → Result Unit × ControlledCore V
  unfolding initialize empty_core
  new_core program bindings = initialize (empty_core program bindings)

  unfoldable pub check_components : Program V → List (ComponentKernel V) → Option HarnessReason
  unfolding validate_initial_capabilities
  check_components p [] = none
  check_components p (k ∷ ks) =
      first_reason (validate_initial_capabilities p k) (check_components p ks)

  -- ControlledRuntimeBuilder::build: the core, or why it is refused.
  unfoldable pub build : Program V → ControlledBindings V → Result (Result Unit × ControlledCore V)
  unfolding validate check_components new_core
  build program bindings =
      elim (first_reason (validate bindings program)
        (check_components program program.components)) [
          | some reason ↦ err (RuntimeError.harness reason)
          | none ↦ ok (new_core program bindings)
        ]
