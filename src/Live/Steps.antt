-- ===== src/Live/Steps.antt =====
-- The atomic actions of the owner task of src/live_runtime.rs, and the sequences of them: what its
-- methods are made of.
pub mod Rules
pub mod Sources
pub mod Commands
pub mod Deliver
pub mod Start
pub mod Loop
use samara.Prelude.{
  [], ℕ, ◌≡◌, Option, Bool, true, false, List, ◌∷◌, ◌++◌, update_first, remove_first,
}
use samara.Values.{TypeId, TypeName, TraceId}
use samara.Ids.{ComponentId}
use samara.Errors.{Result}
use samara.Subscription.{Subscription}
use samara.Command.{EffectCommand}
use samara.Program.{Program}
use samara.Controlled.Commands.{Origin}
use samara.Live.State.{Reason, LiveSource, LiveMessage, LiveEvent, RequestContinuation, TaskExit}
use samara.Live.Scope.{is_running, accept_finite, gate_stop}
use samara.Live.Tasks.{Live, interfere, abort}
use samara.Live.Sources.{with_core, with_scope, next_work, open_sink, run_source}
use samara.Live.Changes.{set_sources}
use samara.Live.Commands.{push_live_request, drop_request, issue_effect, issue_timer}
use samara.Live.Ingress.{drop_effect, pop_request}
use samara.Live.Cancel.{set_queue, set_exited}
use samara.Live.Ingress.{set_kernel}
use samara.Live.Deliver.{put_live_kernel}
use samara.Kernel.{ComponentKernel}
use samara.Live.Run.{drop_timer}

module _ {V : Type 0} where
  -- An update of entries of the table of Sources that keeps their stamps.
  abbrev pub KeepsStamp : (LiveSource V → LiveSource V) → Type 0
  KeepsStamp f = (s : LiveSource V) → (f s).stamp ≡ s.stamp

  -- A Message is of the type that its target is looked up by.
  abbrev pub AgreesOnType : LiveMessage V → Type 0
  AgreesOnType m = m.message.type_id ≡ m.target_message_type

  abbrev pub IsTyped : LiveEvent V → Type 0
  IsTyped (LiveEvent.message m) = AgreesOnType m
  IsTyped (LiveEvent.port_ingress p) = Unit
  IsTyped (LiveEvent.source_event stamp terminal event) = Unit
  IsTyped (LiveEvent.effect_outcome id outcome) = Unit
  IsTyped (LiveEvent.timer_fired id m) = AgreesOnType m
  IsTyped (LiveEvent.shutdown mode) = Unit

  -- One action. A Source is opened only before the drain cutoff and in a running scope; a number is
  -- taken from its counter; what leaves a table is removed from it.
  pub data Step (l : Live V) : Live V → Type 0 where
    others : Step l (interfere l)
    worked : Step l (with_core next_work l)
    admitted :
        (event : LiveEvent V)
        → IsTyped event
        → Step l (with_scope (λ s. (accept_finite event s).1) l)
    stopped_gate :
        (generation task : ℕ) → Step l (with_scope (λ s. abort task (gate_stop generation s).1) l)
    failed_start :
        (component : ComponentId) (s : Subscription V) (terminal : TypeId)
        → l.core.draining ≡ false
        → is_running l.scope.phase ≡ true
        → Step l (open_sink component s.id terminal Option.none l)
    opened :
        (component : ComponentId) (s : Subscription V) (mt : TypeId) (mn : TypeName)
        (work : TraceId) (hook : Option Reason)
        → l.core.draining ≡ false
        → is_running l.scope.phase ≡ true
        → Step l (run_source component s mt mn work hook l)
    updated_source :
        (p : LiveSource V → Bool) (f : LiveSource V → LiveSource V)
        → KeepsStamp f
        → Step l (with_core (λ c. set_sources (update_first p f c.sources) c) l)
    updated_at :
        (f : LiveSource V → LiveSource V) (before rest : List (LiveSource V)) (s : LiveSource V)
        → KeepsStamp f
        → l.core.sources ≡ before ++ s ∷ rest
        → Step l (with_core (set_sources (before ++ f s ∷ rest)) l)
    dropped_source :
        (p : LiveSource V → Bool)
        → Step l (with_core (λ c. set_sources (remove_first p c.sources) c) l)
    cut_off : Step l (with_core (λ c. record c { draining = true }) l)
    issued_effect :
        (o : Origin) (cmd : EffectCommand V) (work : TraceId) → Step l (issue_effect o cmd work l)
    issued_timer :
        (o : Origin) (message : V) (work : TraceId) → Step l (issue_timer o message work l)
    requested :
        (reply_type : TypeId) (k : RequestContinuation V)
        → Step l (with_core (push_live_request reply_type k) l)
    dropped_request : (correlation : ℕ) → Step l (with_core (drop_request correlation) l)
    popped_request : Step l (with_core pop_request l)
    dropped_effect : (id : ℕ) → Step l (with_core (drop_effect id) l)
    dropped_timer : (id : ℕ) → Step l (with_core (drop_timer id) l)
    started : (index : ℕ) (k : ComponentKernel V) → Step l (with_core (set_kernel index k) l)
    committed :
        (id : ComponentId) (message_type : TypeId) (k : ComponentKernel V)
        → Step l (with_core (put_live_kernel id message_type k) l)
    delivered :
        (host : ℕ) (reply : V)
        → Step l (with_core (λ c. record c { delivered = c.delivered ++ (host, reply) ∷ [] }) l)
    dequeued :
        (event : LiveEvent V) (rest : List (LiveEvent V))
        → l.scope.queue ≡ event ∷ rest
        → Step l (with_scope (set_queue rest) l)
    joined :
        (exit : TaskExit) (rest : List TaskExit)
        → l.scope.exited ≡ exit ∷ rest
        → Step l (with_scope (set_exited rest) l)

  -- Finitely many actions in a row.
  pub data Run (l : Live V) : Live V → Type 0 where
    stay : Run l l
    then_step : {m r : Live V} → Run l m → Step m r → Run l r

  abbrev pub Runs : {A : Type 0} → Live V → Result A × Live V → Type 0
  Runs l r = Run l r.1
