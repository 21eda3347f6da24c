-- ===== src/Tests/LiveWitnesses.antt =====
-- The theorems on the live runtime, each applied to the counter Program or one of its parts.
use samara.Prelude.{
  ℕ, ◌≡◌, refl, inl, true, none, ◌++◌, map, is_some, all, ltb, Bool, [], ◌∷◌, List,
}
use samara.Values.{EffectOutcome}
use samara.Errors.{FaultReason, RuntimeError, ok, err}
use samara.Source.{SourcePlan}
use samara.Subscription.{source_plan}
use samara.Command.{Command, Commands, ReplyCommand, into_declarations}
use samara.Kernel.{ErasedCommand}
use samara.Program.{is_target}
use samara.Controlled.Commands.{Origin}
use samara.Live.State.{SourceBinding, LiveMessage}
use samara.Live.Scope.{is_running, is_cancelling, gate_stop}
use samara.Live.Tasks.{Live, HostStep, interfere}
use samara.Live.Bindings.{SourceMatch, effect_binding, source_binding, matches_plan}
use samara.Live.Commands.{live_each, interpret_live, live_reply}
use samara.Live.Deliver.{process_live_message}
use samara.Live.Ingress.{start_live, process_effect}
use samara.Live.Cancel.{LiveEnd}
use samara.Live.Run.{spawn_live, live_loop, run_live}
use samara.Live.Steps.{Run}
use samara.Live.Steps.Loop.{Outcome, run_live-Outcome}
use samara.Live.Steps.Start.{start_live-Runs}
use samara.Live.Lifecycle.{Later, Life, Life-Later, Life-Run}
use samara.Live.Cancel.{abort_work, join_work}
use samara.Live.Cutoff.{IsCutOff, StartsNone, process_live_message-StartsNone}
use samara.Live.Tables.{AreNumbered, spawn_live-AreNumbered}
use samara.Live.Ends.{IsSettled, run_live-IsSettled}
use samara.Live.Cancelling.{origin_of, interpret_live-stops}
use samara.Live.Returns.{HasReturned, live_loop-HasReturned}
use samara.Live.Gates.{send_all, up_to_terminal, stamped, send_all-up_to_terminal}
use samara.Live.Once.{process_effect-once, live_reply-once}
use samara.Live.State.{Shutdown}
use samara.Live.Scope.{begin_shutdown, fault}
use samara.Live.Sources.{with_scope}
use samara.Live.Handles.Closing.{RefusesAll, begin_shutdown-RefusesAll}
use samara.Live.Coverage.{validate_live-effect, validate_live-source}
use samara.Live.Stdin.{Bytes, push_bytes}
use samara.Live.Stdin.Feed.{HasNoNewline}
use samara.Live.Stdin.Chunks.{then_push, push_bytes-append}
use samara.Tests.{counter_id, counter_ref, counter_program, load_token, ticks, ticks_id}
use samara.Tests.Running.{
  steady, live_bindings, count_up, busy, live, begun, cancelled, cut, ticks_sink, ticking, calls,
}

run_live-Outcome_example : Outcome live (run_live steady 40 live)
run_live-Outcome_example = run_live-Outcome steady 40 live

begun-Run : Run live begun
begun-Run = start_live-Runs steady live

abbrev broken : RuntimeError
broken = RuntimeError.fault counter_id none 7 FaultReason.driver_panicked

Life-Later_example : Later live.scope.phase (with_scope (fault broken) begun).scope.phase
Life-Later_example = Life-Later (Life.faults broken (Life-Run begun-Run))

spawn_live-AreNumbered_example : AreNumbered begun.core
spawn_live-AreNumbered_example =
    spawn_live-AreNumbered counter_program live_bindings busy begun begun-Run

begun-AreNumbered : AreNumbered begun.core
begun-AreNumbered = spawn_live-AreNumbered counter_program live_bindings busy begun begun-Run

process_live_message-StartsNone_example :
    StartsNone cut (process_live_message steady count_up cut).1
    × IsCutOff (process_live_message steady count_up cut).1
    × StartsNone cut (start_live steady cut).1
    × IsCutOff (start_live steady cut).1
process_live_message-StartsNone_example =
    process_live_message-StartsNone steady count_up cut (inl refl)

live_loop-HasReturned_example :
    HasReturned (run_live steady 3 cancelled) × HasReturned (live_loop steady 4 cancelled)
live_loop-HasReturned_example = live_loop-HasReturned steady 3 cancelled refl

abbrev one_timer : List (Command ℕ)
one_timer = Command.after 5 1 ∷ []

abbrev other_timer : List (Command ℕ)
other_timer = Command.after 6 2 ∷ []

abbrev two_timers : ErasedCommand ℕ
two_timers = record {
  command =
      Command.batch
        (Commands.cons (Command.after 5 1) (Commands.cons (Command.after 6 2) Commands.nil));
  message_type = 2;
  message_type_name = "Count";
}

-- Cancel is requested after the first of the two timers was issued.
abbrev late : Live ℕ
late =
    spawn_live counter_program live_bindings
      ([] ∷ [] ∷ (HostStep.shut_down Shutdown.cancel ∷ []) ∷ [])

interpret_live-stops_example :
    ((interpret_live steady two_timers counter_id 6 late).0 ≡ ok tt)
    × ((interpret_live steady two_timers counter_id 6 late).1.core
        ≡ (live_each steady (origin_of two_timers counter_id 6) one_timer late).1.core)
unfolding live_each spawn_live interfere is_cancelling into_declarations
interpret_live-stops_example =
    interpret_live-stops steady two_timers counter_id 6 one_timer other_timer late refl refl refl

send_all-up_to_terminal_example :
    ((send_all 0 calls ticking).queue
      ≡ ticking.queue ++ map (stamped ticks_sink) (up_to_terminal calls))
    × (send_all 0 calls (gate_stop 0 ticking).1 ≡ (gate_stop 0 ticking).1)
unfolding is_running samara.Live.State.new_scope
send_all-up_to_terminal_example =
    send_all-up_to_terminal 0 calls ticking ticks_sink (refl, refl) refl refl

process_effect-once_example :
    process_effect steady 0
      (EffectOutcome.succeeded 9)
      (process_effect steady 0 (EffectOutcome.succeeded 7) begun).1
    ≡ (ok tt, (process_effect steady 0 (EffectOutcome.succeeded 7) begun).1)
process_effect-once_example =
    process_effect-once steady 0 (EffectOutcome.succeeded 7) (EffectOutcome.succeeded 9) begun
      begun-AreNumbered

abbrev count_origin : Origin
count_origin = record {
  component = counter_id;
  message_type = 2;
  message_type_name = "Count";
  cause = 5;
}

abbrev answer : ReplyCommand ℕ
answer = record { reply_type = 31; reply_type_name = "Answer"; correlation = 0; reply = 8 }

live_reply-once_example :
    live_reply steady count_origin answer 7 (live_reply steady count_origin answer 6 begun).1 ≡ (
      err (RuntimeError.fault counter_id none 7 FaultReason.reply_without_request),
      (live_reply steady count_origin answer 6 begun).1,
    )
live_reply-once_example =
    live_reply-once steady count_origin count_origin answer answer 6 7 begun begun-AreNumbered refl

validate_live-effect_example : is_some (effect_binding live_bindings 10) ≡ true
unfolding samara.Live.Bindings.validate_live samara.Values.belongs_to samara.Program.Builder.finish
    samara.Program.Builder.bind_port samara.Program.Builder.component samara.Program.Builder.port
    samara.Program.Builder.source samara.Program.Builder.effect samara.Program.Builder.builder
    samara.Values.same_as samara.Program.declares_effect samara.Program.effect_requirement
validate_live-effect_example =
    validate_live-effect live_bindings counter_program load_token 10 refl refl

abbrev ticks_plan : SourcePlan ℕ
ticks_plan = source_plan (ticks ticks_id 4)

validate_live-source_example :
    (b : SourceBinding ℕ) × (source_binding live_bindings ticks_plan ≡ SourceMatch.matched b)
    × (matches_plan b ticks_plan ≡ true)
unfolding samara.Live.Bindings.validate_live samara.Values.belongs_to samara.Program.Builder.finish
    samara.Program.Builder.bind_port samara.Program.Builder.component samara.Program.Builder.port
    samara.Program.Builder.source samara.Program.Builder.effect samara.Program.Builder.builder
    samara.Values.same_as samara.Program.declares_source_plan samara.Program.declares_source
    source_plan samara.Program.source_requirement samara.Source.terminal_plan
validate_live-source_example =
    validate_live-source live_bindings counter_program ticks_plan 20 refl refl

abbrev ended : LiveEnd ℕ
ended = run_live steady 3 cancelled

abbrev left : LiveEnd ℕ → Live ℕ
left (LiveEnd.returned r l) = l
left (LiveEnd.waiting l) = l
left LiveEnd.out_of_fuel = live

run_live-IsSettled_example : IsSettled (ok samara.Live.Cancel.clean_report) (left ended)
unfolding run_live spawn_live
run_live-IsSettled_example =
    run_live-IsSettled steady 3 cancelled (left ended) (ok samara.Live.Cancel.clean_report) tt refl

-- A runtime that a handle sends one Message to, before the owner task looks.
abbrev poked_live : Live ℕ
poked_live = spawn_live counter_program live_bindings ((HostStep.send counter_ref 5 ∷ []) ∷ [])

-- Only ASCII is valid here.
abbrev ascii : Bytes → Bool
ascii bytes = all (λ b. ltb b 128) bytes

push_bytes-append_example :
    (push_bytes ascii (104 ∷ []) ((105 ∷ 13 ∷ []) ++ (10 ∷ 200 ∷ 10 ∷ 7 ∷ []))
      ≡ then_push ascii (push_bytes ascii (104 ∷ []) (105 ∷ 13 ∷ [])) (10 ∷ 200 ∷ 10 ∷ 7 ∷ []))
    × HasNoNewline (push_bytes ascii (104 ∷ []) (105 ∷ 13 ∷ [])).0
push_bytes-append_example =
    push_bytes-append ascii (104 ∷ []) (105 ∷ 13 ∷ []) (10 ∷ 200 ∷ 10 ∷ 7 ∷ []) (refl, tt)

-- The counter Program, cut over to Drain before its owner task does anything.
abbrev draining_live : Live ℕ
draining_live = with_scope (λ s. (begin_shutdown Shutdown.drain s).1) live

-- The owner task starts in it, faults, and cleans up.
abbrev over : Live ℕ
over = with_scope (fault broken) (start_live steady draining_live).1

begin_shutdown-RefusesAll_example : RefusesAll (join_work (abort_work over)).scope
begin_shutdown-RefusesAll_example =
    begin_shutdown-RefusesAll Shutdown.drain live (join_work (abort_work over)) (
      Life.joins
        (Life.aborts (Life.faults broken (Life-Run (start_live-Runs steady draining_live)))))
