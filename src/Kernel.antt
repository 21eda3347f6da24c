-- ===== src/Kernel.antt =====
-- src/component_kernel.rs: the runtime-owned state and transition mechanism of one Component. The
-- trait's methods are a record of functions; `update` returns the Model that it leaves.
use samara.Prelude.{Option, none, some, ◌==◌, if◌then◌else◌}
use samara.Values.{TypeId, TypeName, ErasedValue}
use samara.Ids.{ComponentId}
use samara.Command.{Command}
use samara.Subscription.{Subscriptions}
use samara.Reconciler.{SubscriptionReconciler, Reconciled, new_reconciler, reconcile}

module _ (V : Type 0) where
  -- The trait Component, with Init<Model, Message> as a pair.
  pub record Component : Type 0 where
    pub component_type : TypeId
    pub message_type : TypeId
    pub message_type_name : TypeName
    pub init : V × Command V
    pub update : V → V → V × Command V
    pub subscriptions : V → Subscriptions V

  pub record ComponentKernel : Type 0 where
    pub id : ComponentId
    pub component : Component
    pub open component use {component_type, message_type, message_type_name}
    pub model : V
    pub initial_command : Option (Command V)
    pub reconciler : SubscriptionReconciler V

  -- `Box<dyn ErasedCommand>`: a Command with the Message type that it was emitted under.
  pub record ErasedCommand : Type 0 where
    pub command : Command V
    pub message_type : TypeId
    pub message_type_name : TypeName

module _ {V : Type 0} where
  unfoldable pub new_kernel : ComponentId → Component V → ComponentKernel V
  unfolding new_reconciler
  new_kernel id component = record {
    id = id;
    component = component;
    model = component.init.0;
    initial_command = some component.init.1;
    reconciler = new_reconciler id;
  }

  unfoldable pub transition : ComponentKernel V → V → ComponentKernel V × Command V
  transition k message =
      let (model, command) = k.component.update k.model message in
      (record k { model = model }, command)

  unfoldable pub take_initial_command : ComponentKernel V → ComponentKernel V × Option (Command V)
  take_initial_command k = (record k { initial_command = none }, k.initial_command)

  unfoldable pub reconcile_subscriptions : ComponentKernel V → ComponentKernel V × Reconciled V
  reconcile_subscriptions k =
      let (reconciler, result) = reconcile k.reconciler (k.component.subscriptions k.model) in
      (record k { reconciler = reconciler }, result)

  unfoldable pub erase_command : ComponentKernel V → Command V → ErasedCommand V
  erase_command k command = record {
    command = command;
    message_type = k.message_type;
    message_type_name = k.message_type_name;
  }

  -- `none` is the refusal of a payload of another Rust type.
  unfoldable pub transition_erased :
      ComponentKernel V → ErasedValue V → ComponentKernel V × Option (ErasedCommand V)
  unfolding transition erase_command
  transition_erased k message =
      if message.type_id == k.message_type
      then (let (k', command) = transition k message.payload in
          (k', some (erase_command k command)))
      else (k, none)
