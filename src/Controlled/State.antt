-- ===== src/Controlled/State.antt =====
-- ControlledCore of src/controlled_runtime.rs and the tables it owns, with the trace records of
-- src/lib.rs.
use samara.Prelude.{ℕ, Bool, Option, none, List, []}
use samara.Values.{
  TypeId, TypeName, Duration, TraceId, CapabilityToken, ErasedValue, EffectOutcome, SourceEventKind,
  ErasedSourceEvent,
}
use samara.Ids.{ComponentId, PortId, SubscriptionId}
use samara.Errors.{FaultReason, RuntimeError}
use samara.Source.{SourcePlan}
use samara.Subscription.{Subscription}
use samara.Program.{Program}

pub data TraceCommandKind : Type 0 where
  effect send notify request reply timer : TraceCommandKind

pub data SubscriptionAction : Type 0 where
  started retained replaced cancelled : SubscriptionAction

pub data EffectOutcomeKind : Type 0 where
  succeeded failed cancelled : EffectOutcomeKind

unfoldable pub outcome_kind : {V : Type 0} → EffectOutcome V → EffectOutcomeKind
outcome_kind (EffectOutcome.succeeded v) = EffectOutcomeKind.succeeded
outcome_kind (EffectOutcome.failed v) = EffectOutcomeKind.failed
outcome_kind (EffectOutcome.cancelled r) = EffectOutcomeKind.cancelled

pub data TraceEvent : Type 0 where
  initialization : ComponentId → TraceEvent
  controlled_message_input : ComponentId → TypeName → TraceEvent
  controlled_source_input : ComponentId → SubscriptionId → TypeName → SourceEventKind → TraceEvent
  transition : ComponentId → TypeName → TraceEvent
  command_emitted :
      ComponentId → TraceCommandKind → TypeName → Option ComponentId → Option PortId → TraceEvent
  subscription_lifecycle : ComponentId → SubscriptionId → TypeName → SubscriptionAction → TraceEvent
  source_event_mapped : ComponentId → SubscriptionId → TypeName → SourceEventKind → TraceEvent
  stale_source_work_dropped : ComponentId → SubscriptionId → Bool → TraceEvent
  effect_outcome : TraceId → ComponentId → TypeName → EffectOutcomeKind → TraceEvent
  request_outcome : ComponentId → TypeName → TraceEvent
  timer_fired : ComponentId → TypeName → TraceEvent
  runtime_fault : ComponentId → TraceId → TypeName → FaultReason → TraceEvent

pub record TraceRecord : Type 0 where
  pub id : TraceId
  pub at : Duration
  pub cause : Option TraceId
  pub event : TraceEvent

pub record SourceStamp : Type 0 where
  pub component : ComponentId
  pub subscription : SubscriptionId
  pub generation : ℕ

pub data DeliveryKind : Type 0 where
  message timer : DeliveryKind

module _ (V : Type 0) where
  pub record ActiveSource : Type 0 where
    pub stamp : SourceStamp
    pub running : Bool
    pub subscription : Subscription V
    -- The Message type of the Component that the erased subscription remembers.
    pub message_type : TypeId
    pub message_type_name : TypeName
    pub plan : SourcePlan V

  pub record QueuedMessage : Type 0 where
    pub target : ComponentId
    pub target_message_type : TypeId
    pub message_type_name : TypeName
    pub message : ErasedValue V
    pub cause : TraceId
    pub source : Option SourceStamp
    pub delivery : DeliveryKind

  pub record QueuedSourceEvent : Type 0 where
    pub stamp : SourceStamp
    pub terminal_type : TypeId
    pub event : ErasedSourceEvent V
    pub cause : TraceId

  pub data ScheduledKind : Type 0 where
    message : QueuedMessage → ScheduledKind
    source_event : QueuedSourceEvent → ScheduledKind

  pub record ScheduledWork : Type 0 where
    pub deadline : Duration
    pub ticket : ℕ
    pub kind : ScheduledKind

  pub record PendingEffectEntry : Type 0 where
    pub id : ℕ
    pub component : ComponentId
    pub descriptor_type : TypeId
    pub descriptor_type_name : TypeName
    pub descriptor : Option (ErasedValue V)
    pub mapper : Option (EffectOutcome V → V)
    pub request_trace : TraceId
    pub message_type : TypeId
    pub message_type_name : TypeName

  pub record OutstandingRequest : Type 0 where
    pub correlation : ℕ
    pub requester : ComponentId
    pub reply_type : TypeId
    pub reply_type_name : TypeName
    pub mapper : Option (V → V)
    pub message_type : TypeId
    pub message_type_name : TypeName

  -- A HashSet<TypeId> is the list of its members.
  pub record ControlledBindings : Type 0 where
    pub effects : List TypeId
    pub sources : List TypeId
    pub exact_sources : List CapabilityToken

  pub record ControlledCore : Type 0 where
    pub program : Program V
    pub bindings : ControlledBindings
    pub now : Duration
    pub next_ticket : ℕ
    pub next_effect : ℕ
    pub next_correlation : ℕ
    pub next_generation : ℕ
    pub scheduled : List ScheduledWork
    pub effects : List PendingEffectEntry
    pub requests : List OutstandingRequest
    pub sources : List ActiveSource
    pub trace : List TraceRecord
    pub fault : Option RuntimeError

module _ {V : Type 0} where
  -- The record that ControlledCore::new builds before `initialize`.
  unfoldable pub empty_core : Program V → ControlledBindings V → ControlledCore V
  empty_core program bindings = record {
    program = program;
    bindings = bindings;
    now = 0;
    next_ticket = 0;
    next_effect = 0;
    next_correlation = 0;
    next_generation = 0;
    scheduled = [];
    effects = [];
    requests = [];
    sources = [];
    trace = [];
    fault = none;
  }
