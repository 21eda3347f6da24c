-- ===== src/Tests.antt =====
-- A counter Program: one Component with an effect and a request at startup, a stream Source and a
-- Port that it binds to itself.
pub mod Witnesses
pub mod Running
pub mod LiveWitnesses
use samara.Prelude.{ℕ, ◌+◌, Option, none, some, List, [], ◌∷◌, Bool, ◌==◌}
use samara.Values.{CapabilityToken, EffectOutcome, SourceEvent}
use samara.Ids.{ComponentId, PortId, SubscriptionId}
use samara.Command.{Command, Commands}
use samara.Source.{terminal_plan}
use samara.Subscription.{Subscription}
use samara.Kernel.{Component}
use samara.Program.{ComponentRef, Port, Program}
use samara.Program.Builder.{
  builder, effect, source, component, port, bind_port, finish, ProgramBuilder,
}
use samara.Controlled.State.{ControlledBindings, ControlledCore}
use samara.Controlled.Init.{new_core}
use samara.Controlled.Drive.{Drive}
use samara.Controlled.Harness.{send}

abbrev pub counter_id : ComponentId
counter_id = 1 ∷ []

abbrev pub ticks_id : SubscriptionId
ticks_id = 9 ∷ []

abbrev pub load_token : CapabilityToken
load_token = record { id = 0; program = 100 }

abbrev pub ticks_token : CapabilityToken
ticks_token = record { id = 1; program = 100 }

abbrev pub asked_port : Port
asked_port = record { id = 7 ∷ []; program = 100; protocol_type = 30; protocol_type_name = "Ask" }

abbrev pub counter_ref : ComponentRef
counter_ref = record {
  id = counter_id;
  program = 100;
  component_type = 1;
  message_type = 2;
  message_type_name = "Count";
}

abbrev pub of_outcome : EffectOutcome ℕ → ℕ
of_outcome (EffectOutcome.succeeded n) = n
of_outcome (EffectOutcome.failed n) = 0
of_outcome (EffectOutcome.cancelled r) = 0

abbrev pub of_tick : SourceEvent ℕ → ℕ
of_tick (SourceEvent.item n) = n
of_tick (SourceEvent.failed e) = 0
of_tick SourceEvent.ended = 0

-- The stream of ticks, in one of several configurations.
abbrev pub ticks : SubscriptionId → ℕ → Subscription ℕ
ticks id configuration = record {
  id = id;
  capability = ticks_token;
  descriptor_type = 20;
  descriptor_type_name = "Ticks";
  descriptor = configuration;
  descriptor_eq = λ a b. a == b;
  lowered = terminal_plan 20 "Ticks" 21 configuration;
  source_event_type = 21;
  mapper = of_tick;
}

abbrev pub load : Command ℕ
load = Command.effect (record {
  capability = load_token;
  intent_type = 10;
  intent_type_name = "Load";
  intent = 3;
  mapper = some of_outcome;
})

abbrev pub ask : Command ℕ
ask = Command.request (record {
  port = 7 ∷ [];
  port_program = 100;
  protocol_type = 30;
  request_type_name = "Ask";
  reply_type = 31;
  reply_type_name = "Answer";
  into_message = λ correlation. correlation;
  mapper = λ reply. reply;
})

abbrev pub counter : Component ℕ
counter = record {
  component_type = 1;
  message_type = 2;
  message_type_name = "Count";
  init = (0, Command.batch (Commands.cons load (Commands.cons ask Commands.nil)));
  update = λ model message. (model + message, Command.nothing);
  subscriptions = λ model. ticks ticks_id 4 ∷ [];
}

abbrev pub counter_builder : ProgramBuilder ℕ
counter_builder =
    let declared = (effect 10 "Load" (builder 100)).1 in
    let sourced =
      (source
        (record {
          descriptor_type = 20;
          descriptor_type_name = "Ticks";
          terminal_type = 20;
          terminal_type_name = "Ticks";
          terminal_stream_item_type = some 22;
        })
        declared).1 in
    let ported = (port (7 ∷ []) 30 "Ask" sourced).1 in
    bind_port asked_port counter_ref (λ m. m) (component counter_id counter ported).1

abbrev pub counter_program : Program ℕ
counter_program = finish counter_builder

abbrev pub counter_bindings : ControlledBindings ℕ
counter_bindings = record { effects = 10 ∷ []; sources = []; exact_sources = ticks_token ∷ [] }

abbrev pub started : ControlledCore ℕ
started = (new_core counter_program counter_bindings).1

-- A message is waiting.
abbrev pub poked : ControlledCore ℕ
poked = (send counter_ref 5 started).1
