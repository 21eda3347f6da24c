-- ===== src/Live/State.antt =====
-- LiveCore of src/live_runtime.rs and its tables, in two parts: what only the owner task touches,
-- and what stands behind a lock or a channel. A task handle (AbortHandle) is the task's number, and
-- a Source's gate is found by the generation of its stamp.
use samara.Prelude.{ℕ, String, Bool, true, false, Option, List, []}
use samara.Values.{
  TypeId, TypeName, ProgramRef, TraceId, CapabilityToken, ErasedValue, EffectOutcome,
  ErasedSourceEvent,
}
use samara.Ids.{ComponentId, PortId}
use samara.Errors.{RuntimeError}
use samara.Source.{SourcePlan}
use samara.Subscription.{Subscription}
use samara.Program.{Program}
use samara.Controlled.State.{SourceStamp}

pub data Shutdown : Type 0 where
  drain cancel : Shutdown

pub data SourceGateState : Type 0 where
  active terminal_accepted stopped : SourceGateState

-- The outcome of a stop hook or a task: the reason of a failure.
abbrev pub Reason : Type 0
Reason = Option String

-- SourceSinkCore with its SourceGate: a stop hook is its outcome.
pub record SourceSinkCore : Type 0 where
  pub stamp : SourceStamp
  pub terminal_type : TypeId
  pub state : SourceGateState
  pub stop_hook : Option Reason

pub data ScopePhase : Type 0 where
  running draining cancelling closed : ScopePhase
  faulted : RuntimeError → ScopePhase

pub data TaskContext : Type 0 where
  effect : ℕ → ComponentId → TypeName → TraceId → TaskContext
  source : SourceStamp → TypeName → TraceId → TaskContext
  timer : ComponentId → TraceId → TaskContext

-- What `join_next` yields: the exit of the supervised future, or a JoinError.
pub data TaskOutcome : Type 0 where
  finished : Reason → TaskOutcome
  panicked cancelled failed : TaskOutcome

pub record TaskExit : Type 0 where
  pub context : TaskContext
  pub outcome : TaskOutcome

pub data BindingKind : Type 0 where
  typed mpsc stdin : BindingKind

module _ (V : Type 0) where
  pub record LiveMessage : Type 0 where
    pub target : ComponentId
    pub target_message_type : TypeId
    pub message_type_name : TypeName
    pub message : ErasedValue V
    pub source : Option SourceStamp

  -- TypedLivePortNotification, with the outcome of `into_message`.
  pub record PortNotification : Type 0 where
    pub port : PortId
    pub port_program : ProgramRef
    pub protocol_type : TypeId
    pub notification : V

  -- TypedLivePortRequest; `host` names the oneshot channel of its completion.
  pub record PortRequest : Type 0 where
    pub port : PortId
    pub port_program : ProgramRef
    pub protocol_type : TypeId
    pub reply_type : TypeId
    pub into_message : ℕ → V
    pub host : ℕ

  pub data LivePortIngress : Type 0 where
    notification : PortNotification → LivePortIngress
    request : PortRequest → LivePortIngress

  pub data LiveEvent : Type 0 where
    message : LiveMessage → LiveEvent
    port_ingress : LivePortIngress → LiveEvent
    source_event : SourceStamp → TypeId → ErasedSourceEvent V → LiveEvent
    effect_outcome : ℕ → EffectOutcome V → LiveEvent
    timer_fired : ℕ → LiveMessage → LiveEvent
    shutdown : Shutdown → LiveEvent

  pub record LiveSource : Type 0 where
    pub stamp : SourceStamp
    pub running : Bool
    pub terminal_observed : Bool
    pub drain_retained : Bool
    pub subscription : Subscription V
    -- The Message type of the Component that the erased subscription remembers.
    pub message_type : TypeId
    pub message_type_name : TypeName
    pub plan : SourcePlan V
    pub task : ℕ

  pub record LiveEffect : Type 0 where
    pub id : ℕ
    pub component : ComponentId
    pub descriptor_type_name : TypeName
    pub mapper : Option (EffectOutcome V → V)
    pub message_type : TypeId
    pub message_type_name : TypeName
    pub task : ℕ

  pub data RequestContinuation : Type 0 where
    component : ComponentId → (V → V) → TypeId → TypeName → RequestContinuation
    host : TypeId → ℕ → RequestContinuation

  pub record LiveRequest : Type 0 where
    pub correlation : ℕ
    pub reply_type : TypeId
    pub continuation : RequestContinuation

  pub record LiveTimer : Type 0 where
    pub id : ℕ
    pub task : ℕ

  -- What the future of a task sends when its wait is over: the outcome of an effect under an
  -- effect's number, a timer's Message, or nothing of its own.
  pub data TaskBody : Type 0 where
    effect : ℕ → TaskBody
    timer : ℕ → LiveMessage → TaskBody
    source : TaskBody

  -- A task of the JoinSet that has not exited. `sent` tells that its one event is out.
  pub record RunningTask : Type 0 where
    pub task : ℕ
    pub context : TaskContext
    pub body : TaskBody
    pub aborted : Bool
    pub sent : Bool

  pub record EffectBinding : Type 0 where
    pub descriptor_type : TypeId
    pub descriptor_type_name : TypeName

  -- An ErasedSourceBinding. `start` is the part of `run` before its future: `none` is a panic, and
  -- a stop hook may be left with the gate.
  pub record SourceBinding : Type 0 where
    pub kind : BindingKind
    pub descriptor_type : TypeId
    pub descriptor_type_name : TypeName
    pub capability : CapabilityToken
    pub start : V → Option (Option Reason)

  pub record LiveBindings : Type 0 where
    pub effects : List EffectBinding
    pub sources : List SourceBinding

  -- `delivered` lists what the completions of host Requests received, latest last.
  pub record LiveCore : Type 0 where
    pub program : Program V
    pub bindings : LiveBindings
    pub sources : List LiveSource
    pub effects : List LiveEffect
    pub requests : List LiveRequest
    pub timers : List LiveTimer
    pub next_generation : ℕ
    pub next_effect : ℕ
    pub next_request : ℕ
    pub next_timer : ℕ
    pub next_work : ℕ
    pub next_task : ℕ
    pub draining : Bool
    pub delivered : List (ℕ × V)

  -- LiveScope with its channel, the gates and the JoinSet. `listening` holds until the receiver is
  -- dropped with the owner task.
  pub record LiveScope : Type 0 where
    pub phase : ScopePhase
    pub listening : Bool
    pub queue : List LiveEvent
    pub sinks : List SourceSinkCore
    pub running : List RunningTask
    pub exited : List TaskExit

module _ {V : Type 0} where
  -- LiveCore::new.
  unfoldable pub new_live_core : Program V → LiveBindings V → LiveCore V
  new_live_core program bindings = record {
    program = program;
    bindings = bindings;
    sources = [];
    effects = [];
    requests = [];
    timers = [];
    next_generation = 0;
    next_effect = 0;
    next_request = 0;
    next_timer = 0;
    next_work = 0;
    next_task = 0;
    draining = false;
    delivered = [];
  }

  -- LiveScope::new, with an open channel and no task yet.
  unfoldable pub new_scope : LiveScope V
  new_scope = record {
    phase = ScopePhase.running;
    listening = true;
    queue = [];
    sinks = [];
    running = [];
    exited = [];
  }
