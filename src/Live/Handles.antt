-- ===== src/Live/Handles.antt =====
-- The live handles of src/lib.rs: LiveRuntimeBuilder::build, the Component and Port handles, and
-- RuntimeTask. What awaiting the owner's JoinHandle yields is an argument.
pub mod Closing
use samara.Prelude.{
  ℕ, Bool, true, false, not, ◌&&◌, ◌||◌, Option, none, some, List, ◌==◌, any, find, if◌then◌else◌,
}
use samara.Ids.{id_eq}
use samara.Errors.{HarnessReason, RuntimeError, Result, ok, err, panic}
use samara.Kernel.{ComponentKernel}
use samara.Program.{ComponentRef, Port, PortBinding, Program}
use samara.Controlled.Drive.{ShutdownReport}
use samara.Controlled.Init.{check_components}
use samara.Live.State.{
  Shutdown, LiveBindings, LiveScope, PortNotification, PortRequest, LivePortIngress, LiveEvent,
  new_scope,
}
use samara.Live.Bindings.{validate_live, or_else}
use samara.Live.Scope.{request_ended_error, accept_ingress, begin_shutdown}
use samara.Live.Tasks.{Live, ingress}

module _ (V : Type 0) where
  pub record LiveRuntime : Type 0 where
    pub program : Program V
    pub bindings : LiveBindings V
    pub scope : LiveScope V

-- What the await of the owner's JoinHandle yields.
pub data OwnerExit : Type 0 where
  returned : Result ShutdownReport → OwnerExit
  owner_panicked : OwnerExit

-- RuntimeTask, but for the scope; `join` says whether it holds the JoinHandle.
pub record RuntimeTask : Type 0 where
  pub join : Bool
  pub completion : Option (Result ShutdownReport)

-- LiveRuntime::spawn.
unfoldable pub spawn_task : RuntimeTask
spawn_task = record { join = true; completion = none }

unfoldable pub joined : OwnerExit → Result ShutdownReport
joined (OwnerExit.returned r) = r
joined OwnerExit.owner_panicked = err (RuntimeError.harness HarnessReason.owner_task_panicked)

-- The `expect`, and what follows the await.
unfoldable pub await_join : OwnerExit → RuntimeTask → Result ShutdownReport × RuntimeTask
unfolding joined
await_join exit t =
    if t.join
    then (joined exit, record { join = false; completion = some (joined exit) })
    else (panic, t)

unfoldable pub await_completion : OwnerExit → RuntimeTask → Result ShutdownReport × RuntimeTask
unfolding await_join
await_completion exit t = elim t.completion [
  | some completion ↦ (completion, t)
  | none ↦ await_join exit t
]

-- What `shutdown` makes of the owner's result and its own cutoff.
unfoldable pub with_cutoff : Option RuntimeError → Result ShutdownReport → Result ShutdownReport
with_cutoff none r = r
with_cutoff (some e) (ok report) = err e
with_cutoff (some e) (err error) = err error
with_cutoff (some e) panic = panic

module _ {V : Type 0} where
  -- LiveRuntimeBuilder::build.
  unfoldable pub build_live : Program V → LiveBindings V → Result (LiveRuntime V)
  unfolding validate_live check_components new_scope
  build_live program bindings =
      elim (or_else (validate_live bindings program)
        (check_components program program.components)) [
          | some reason ↦ err (RuntimeError.harness reason)
          | none ↦ ok (record { program = program; bindings = bindings; scope = new_scope })
        ]

  abbrev pub is_component : ComponentRef → ComponentKernel V → Bool
  is_component target k =
      id_eq k.id target.id && k.component.component_type == target.component_type

  abbrev pub is_port : Port → PortBinding V → Bool
  is_port port b =
      b.protocol_type == port.protocol_type
      && (id_eq b.port_id port.id && b.port_program == port.program)

  -- LiveRuntime::handle; a ComponentHandle is its reference with the scope.
  unfoldable pub live_handle : LiveRuntime V → ComponentRef → Result ComponentRef
  live_handle runtime target =
      if not (target.program == runtime.program.program)
        || not (any (is_component target) runtime.program.components)
      then err (RuntimeError.harness HarnessReason.foreign_live_handle)
      else ok target

  -- LiveRuntime::port_handle.
  unfoldable pub live_port_handle : LiveRuntime V → Port → Result Port
  live_port_handle runtime port =
      if not (port.program == runtime.program.program)
        || not (any (is_port port) runtime.program.bindings)
      then err (RuntimeError.harness HarnessReason.foreign_live_port_handle)
      else ok port

  -- ComponentHandle::send.
  unfoldable pub handle_send : ComponentRef → V → LiveScope V → Option RuntimeError × LiveScope V
  unfolding accept_ingress
  handle_send target payload s = accept_ingress (ingress target payload) s

  -- LiveEvent::port_notification.
  abbrev pub port_notification : Port → V → LiveEvent V
  port_notification port notification = LiveEvent.port_ingress (
      LivePortIngress.notification (record {
        port = port.id;
        port_program = port.program;
        protocol_type = port.protocol_type;
        notification = notification;
      }))

  -- LiveEvent::port_request.
  abbrev pub port_request : Port → ℕ → (ℕ → V) → ℕ → LiveEvent V
  port_request port reply_type into_message host = LiveEvent.port_ingress (
      LivePortIngress.request (record {
        port = port.id;
        port_program = port.program;
        protocol_type = port.protocol_type;
        reply_type = reply_type;
        into_message = into_message;
        host = host;
      }))

  -- PortHandle::notify.
  unfoldable pub handle_notify : Port → V → LiveScope V → Option RuntimeError × LiveScope V
  unfolding accept_ingress
  handle_notify port notification s = accept_ingress (port_notification port notification) s

  -- PortHandle::request up to its wait; `host` names the completion.
  unfoldable pub handle_request :
      Port → ℕ → (ℕ → V) → ℕ → LiveScope V → Option RuntimeError × LiveScope V
  unfolding accept_ingress
  handle_request port reply_type into_message host s =
      accept_ingress (port_request port reply_type into_message host) s

  -- The end of that wait: the reply, or the error of a completion that was dropped.
  unfoldable pub await_reply : ℕ → Live V → Result V
  unfolding request_ended_error
  await_reply host l = elim (find (λ (d : ℕ × V). d.0 == host) l.core.delivered) [
    | some d ↦ ok d.1
    | none ↦ err (request_ended_error l.scope.phase)
  ]

  -- RuntimeTask::shutdown; the owner's exit may come long after the cutoff.
  unfoldable pub shutdown_task :
      Shutdown → OwnerExit → RuntimeTask → LiveScope V → Result ShutdownReport × LiveScope V
  unfolding begin_shutdown await_completion with_cutoff
  shutdown_task mode exit t s =
      let (cutoff, s') = begin_shutdown mode s in
      (with_cutoff cutoff (await_completion exit t).0, s')

  -- Drop of a RuntimeTask: the scope, and whether the owner is aborted.
  unfoldable pub drop_task : RuntimeTask → LiveScope V → LiveScope V × Bool
  unfolding begin_shutdown
  drop_task t s = if t.join then ((begin_shutdown Shutdown.cancel s).1, true) else (s, false)
