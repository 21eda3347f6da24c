-- ===== src/Controlled/Queue.antt =====
-- The scheduler of ControlledCore: work ordered by logical deadline, then by insertion ticket.
pub mod Order
use samara.Prelude.{
  ℕ, suc, Option, none, some, Bool, ◌&&◌, ◌||◌, List, [], ◌∷◌, ◌++◌, ltb, leb, ◌==◌, if◌then◌else◌,
  remove_at,
}
use samara.Values.{Duration}
use samara.Controlled.State.{QueuedMessage, ScheduledKind, ScheduledWork, ControlledCore}

module _ {V : Type 0} where
  unfoldable pub schedule : Duration → ScheduledKind V → ControlledCore V → ControlledCore V
  schedule deadline kind c = record c {
    next_ticket = suc c.next_ticket;
    scheduled =
        c.scheduled ++ record { deadline = deadline; ticket = c.next_ticket; kind = kind } ∷ [];
  }

  abbrev pub schedule_message : QueuedMessage V → Duration → ControlledCore V → ControlledCore V
  schedule_message message deadline c = schedule deadline (ScheduledKind.message message) c

  -- The key of `min_by_key` is the pair (deadline, ticket), compared lexicographically.
  abbrev pub key_leb : ScheduledWork V → ScheduledWork V → Bool
  key_leb a b = ltb a.deadline b.deadline || (a.deadline == b.deadline && leb a.ticket b.ticket)

  -- The first work in front of the best of the rest: `min_by_key` keeps the first of equal keys.
  unfoldable pub earlier :
      Duration → ScheduledWork V → Option (ℕ × ScheduledWork V) → Option (ℕ × ScheduledWork V)
  earlier now work none = if leb work.deadline now then some (0, work) else none
  earlier now work (some (index, best)) =
      if leb work.deadline now && key_leb work best then some (0, work) else some (suc index, best)

  unfoldable pub min_due : Duration → List (ScheduledWork V) → Option (ℕ × ScheduledWork V)
  unfolding earlier
  min_due now [] = none
  min_due now (work ∷ rest) = earlier now work (min_due now rest)

  unfoldable pub pop_next_due : ControlledCore V → Option (ScheduledWork V) × ControlledCore V
  unfolding min_due
  pop_next_due c = elim (min_due c.now c.scheduled) [
    | none ↦ (none, c)
    | some (index, work) ↦ (some work, record c { scheduled = remove_at index c.scheduled })
  ]
