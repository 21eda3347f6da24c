-- ===== src/Live/Tasks.antt =====
-- The JoinSet of src/live_runtime.rs, as tokio documents it, and the atomic actions of the other
-- threads: a schedule lists those that run before each operation of the owner task that takes a
-- lock or reads the channel.
use samara.Prelude.{
  map, ℕ, suc, Bool, true, false, not, ◌&&◌, Option, none, some, List, [], ◌∷◌, ◌++◌, ◌==◌, find,
  remove_first, update_first, if◌then◌else◌,
}
use samara.Values.{EffectOutcome, ErasedSourceEvent}
use samara.Program.{ComponentRef}
use samara.Live.State.{
  Shutdown, TaskContext, TaskOutcome, LivePortIngress, LiveEvent, TaskBody, RunningTask, LiveCore,
  LiveScope,
}
use samara.Live.Scope.{accept_ingress, accept_finite, begin_shutdown, sink_send}

module _ (V : Type 0) where
  -- `settle` gives the outcome of an effect; a timer's sleep and a Source ignore it.
  pub data HostStep : Type 0 where
    send : ComponentRef → V → HostStep
    call : LivePortIngress V → HostStep
    shut_down : Shutdown → HostStep
    emit : ℕ → ErasedSourceEvent V → Bool → HostStep
    settle : ℕ → EffectOutcome V → HostStep
    exit : ℕ → TaskOutcome → HostStep

  pub record Live : Type 0 where
    pub core : LiveCore V
    pub scope : LiveScope V
    pub schedule : List (List HostStep)

module _ {V : Type 0} where
  abbrev pub is_task : ℕ → RunningTask V → Bool
  is_task task t = t.task == task

  unfoldable pub task_event : TaskBody V → EffectOutcome V → Option (LiveEvent V)
  task_event (TaskBody.effect id) outcome = some (LiveEvent.effect_outcome id outcome)
  task_event (TaskBody.timer id message) outcome = some (LiveEvent.timer_fired id message)
  task_event TaskBody.source outcome = none

  abbrev pub mark_sent : RunningTask V → RunningTask V
  mark_sent t = record t { sent = true }

  -- The wait of a future is over: its event goes out, once.
  unfoldable pub settle_task : ℕ → EffectOutcome V → LiveScope V → LiveScope V
  unfolding accept_finite task_event
  settle_task task outcome s = elim (find (is_task task) s.running) [
    | none ↦ s
    | some t ↦ if t.sent then s else elim (task_event t.body outcome) [
      | none ↦ s
      | some event ↦
          let s' = (accept_finite event s).1 in
          record s' { running = update_first (is_task task) mark_sent s'.running }
    ]
  ]

  -- Whether the future of a task can end so: only an aborted one is cancelled, an effect or a timer
  -- ends well after its event alone, and no failure of the JoinSet's own is known.
  unfoldable pub can_exit : RunningTask V → TaskOutcome → Bool
  can_exit t TaskOutcome.cancelled = t.aborted
  can_exit t TaskOutcome.failed = true
  can_exit t TaskOutcome.panicked = not t.sent
  can_exit t (TaskOutcome.finished reason) = elim t.body [
    | TaskBody.effect id ↦ t.sent && elim reason [ none ↦ true | some r ↦ false ]
    | TaskBody.timer id message ↦ t.sent && elim reason [ none ↦ true | some r ↦ false ]
    | TaskBody.source ↦ true
  ]

  unfoldable pub exit_task : ℕ → TaskOutcome → LiveScope V → LiveScope V
  unfolding can_exit
  exit_task task outcome s = elim (find (is_task task) s.running) [
    | none ↦ s
    | some t ↦
        if can_exit t outcome
        then record s {
          running = remove_first (is_task task) s.running;
          exited = s.exited ++ record { context = t.context; outcome = outcome } ∷ [];
        }
        else s
  ]

  -- LiveEvent::ingress, of a ComponentHandle::send.
  abbrev pub ingress : ComponentRef → V → LiveEvent V
  ingress target payload = LiveEvent.message (record {
    target = target.id;
    target_message_type = target.message_type;
    message_type_name = target.message_type_name;
    message = record { type_id = target.message_type; payload = payload };
    source = none;
  })

  unfoldable pub host_step : HostStep V → LiveScope V → LiveScope V
  unfolding accept_ingress begin_shutdown sink_send settle_task exit_task
  host_step (HostStep.send target payload) s = (accept_ingress (ingress target payload) s).1
  host_step (HostStep.call p) s = (accept_ingress (LiveEvent.port_ingress p) s).1
  host_step (HostStep.shut_down mode) s = (begin_shutdown mode s).1
  host_step (HostStep.emit generation event terminal) s = (sink_send generation event terminal s).1
  host_step (HostStep.settle task outcome) s = settle_task task outcome s
  host_step (HostStep.exit task outcome) s = exit_task task outcome s

  unfoldable pub host_steps : List (HostStep V) → LiveScope V → LiveScope V
  unfolding host_step
  host_steps [] s = s
  host_steps (step ∷ steps) s = host_steps steps (host_step step s)

  unfoldable pub interfere_with : List (List (HostStep V)) → Live V → Live V
  unfolding host_steps
  interfere_with [] l = l
  interfere_with (steps ∷ rest) l = record l { scope = host_steps steps l.scope; schedule = rest }

  -- The other threads, up to the next operation of the owner task.
  unfoldable pub interfere : Live V → Live V
  unfolding interfere_with
  interfere l = interfere_with l.schedule l

  -- `spawn_owned`, which yields the handle.
  unfoldable pub spawn_owned : TaskContext → TaskBody V → Live V → ℕ × Live V
  spawn_owned context body l = (
    l.core.next_task,
    record l {
      core = record (l.core) { next_task = suc l.core.next_task };
      scope = record (l.scope) {
        running =
            l.scope.running
            ++ record {
              task = l.core.next_task;
              context = context;
              body = body;
              aborted = false;
              sent = false;
            }
              ∷ [];
      };
    },
  )

  abbrev pub mark_aborted : RunningTask V → RunningTask V
  mark_aborted t = record t { aborted = true }

  -- AbortHandle::abort.
  unfoldable pub abort : ℕ → LiveScope V → LiveScope V
  abort task s = record s { running = update_first (is_task task) mark_aborted s.running }

  -- JoinSet::abort_all.
  unfoldable pub abort_all : LiveScope V → LiveScope V
  abort_all s = record s { running = map mark_aborted s.running }

  -- AbortHandle::abort, of one task after the other.
  unfoldable pub abort_tasks : List ℕ → LiveScope V → LiveScope V
  unfolding abort
  abort_tasks [] s = s
  abort_tasks (task ∷ rest) s = abort_tasks rest (abort task s)
