-- ===== src/Tests/Running.antt =====
-- The counter Program on the live runtime, among the other threads of a schedule.
use samara.Prelude.{ℕ, Bool, true, false, none, some, List, [], ◌∷◌, ltb}
use samara.Values.{EffectOutcome, SourceEvent, ErasedSourceEvent, typed}
use samara.Live.State.{
  Shutdown, SourceGateState, SourceSinkCore, ScopePhase, TaskOutcome, BindingKind, LiveMessage,
  LiveBindings, LiveScope, new_scope,
}
use samara.Live.Tasks.{Live, HostStep}
use samara.Live.Ingress.{start_live}
use samara.Live.Run.{spawn_live}
use samara.Tests.{counter_id, counter_ref, ticks_id, counter_program, ticks_token}

-- No payload stands for a panic.
abbrev pub steady : ℕ → Bool
steady n = ltb 1000 n

abbrev pub live_bindings : LiveBindings ℕ
live_bindings = record {
  effects = record { descriptor_type = 10; descriptor_type_name = "Load" } ∷ [];
  sources =
      record {
        kind = BindingKind.mpsc;
        descriptor_type = 20;
        descriptor_type_name = "Ticks";
        capability = ticks_token;
        start = λ configuration. some none;
      }
      ∷ [];
}

abbrev pub count_up : LiveMessage ℕ
count_up = record {
  target = counter_id;
  target_message_type = 2;
  message_type_name = "Count";
  message = record { type_id = 2; payload = 5 };
  source = none;
}

abbrev pub busy : List (List (HostStep ℕ))
busy =
    []
    ∷ []
    ∷ (HostStep.send counter_ref 5 ∷ HostStep.emit 0 (typed (SourceEvent.item 2)) false ∷ [])
    ∷ (HostStep.settle 1 (EffectOutcome.succeeded 7)
        ∷ HostStep.exit 1 (TaskOutcome.finished none)
        ∷ [])
    ∷ (HostStep.shut_down Shutdown.drain ∷ [])
    ∷ []

abbrev pub live : Live ℕ
live = spawn_live counter_program live_bindings busy

-- The state after `initialize`, among the other threads.
abbrev pub begun : Live ℕ
begun = (start_live steady live).1

abbrev pub cancelled_scope : LiveScope ℕ
cancelled_scope = record new_scope { phase = ScopePhase.cancelling }

-- Cancel was requested before the owner task began.
abbrev pub cancelled : Live ℕ
cancelled = record live { scope = cancelled_scope }

-- The drain cutoff is over.
abbrev pub cut : Live ℕ
cut = record live { core = record (live.core) { draining = true } }

abbrev pub ticks_sink : SourceSinkCore
ticks_sink = record {
  stamp = record { component = counter_id; subscription = ticks_id; generation = 0 };
  terminal_type = 20;
  state = SourceGateState.active;
  stop_hook = none;
}

abbrev pub ticking : LiveScope ℕ
ticking = record new_scope { sinks = ticks_sink ∷ [] }

-- An item, the end, and an item that comes too late.
abbrev pub calls : List (ErasedSourceEvent ℕ × Bool)
calls =
    (typed (SourceEvent.item 2), false)
    ∷ (typed SourceEvent.ended, true)
    ∷ (typed (SourceEvent.item 3), false)
    ∷ []
