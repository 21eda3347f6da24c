-- ===== src/Live/Typing.antt =====
-- The erased Messages of the live runtime have the type that their target is looked up by.
use samara.Prelude.{ℕ, ◌≡◌, ◌⊎◌, All}
use samara.Program.{Program}
use samara.Live.State.{LiveMessage, LiveEvent, TaskBody, RunningTask, LiveScope}
use samara.Live.Tasks.{Live}
use samara.Live.Steps.{AgreesOnType, IsTyped, Run}

module _ {V : Type 0} where
  -- A timer's task holds a Message of the right type.
  abbrev IsTypedBody : TaskBody V → Type 0
  IsTypedBody (TaskBody.effect id) = Unit
  IsTypedBody (TaskBody.timer id m) = AgreesOnType m
  IsTypedBody TaskBody.source = Unit

  abbrev IsTypedTask : RunningTask V → Type 0
  IsTypedTask t = IsTypedBody t.body

  -- What is queued, and what the timers that run will queue.
  abbrev pub AreTyped : LiveScope V → Type 0
  AreTyped s = All IsTyped s.queue × All IsTypedTask s.running

  abbrev TypedAfter : {A : Type 0} → A × LiveScope V → Type 0
  TypedAfter r = AreTyped r.1

  -- The Message that an event hands to `process_message`.
  abbrev pub Carries : LiveEvent V → LiveMessage V → Type 0
  Carries event m =
      (event ≡ LiveEvent.message m) ⊎ ((id : ℕ) × (event ≡ LiveEvent.timer_fired id m))
