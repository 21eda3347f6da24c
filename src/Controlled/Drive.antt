-- ===== src/Controlled/Drive.antt =====
-- The drive operations of ControlledCore: `run_until_idle`, `advance`, `advance_to_next`,
-- `pending_work`, `cancel`. A drive may go on for ever (a Component may keep sending to itself), so
-- each takes fuel for its rounds; `none` means that the fuel ran out.
pub mod Deadlines
use samara.Prelude.{
  ℕ, zero, suc, ◌+◌, Option, none, some, Bool, true, false, ◌&&◌, List, [], ◌∷◌, ltb, leb, ◌==◌,
  if◌then◌else◌, count, length,
}
use samara.Values.{Duration, checked_add}
use samara.Errors.{HarnessReason, RuntimeError, Result, ok, err, panic}
use samara.Controlled.State.{ScheduledKind, ScheduledWork, ActiveSource, ControlledCore}
use samara.Controlled.Queue.{pop_next_due}
use samara.Controlled.Deliver.{process_work}

pub record PendingWork : Type 0 where
  pub pending_now : ℕ
  pub pending_later : ℕ

pub record RunReport : Type 0 where
  pub transitions : ℕ
  pub pending_now : ℕ
  pub pending_later : ℕ

pub record ShutdownReport : Type 0 where
  pub completed : ℕ
  pub cancelled : ℕ
  pub remaining : ℕ
  pub pending_now : ℕ
  pub pending_later : ℕ

unfoldable pub is_clean : ShutdownReport → Bool
is_clean r = r.remaining == 0

abbrev pub Drive : Type 0 → Type 0 → Type 0
Drive V A = Option (Result A × ControlledCore V)

abbrev pub earliest : Duration → Option Duration → Option Duration
earliest d none = some d
earliest d (some e) = some (if leb d e then d else e)

module _ {V : Type 0} where
  -- The value of a finished sub-drive, or its error or panic.
  abbrev pub then_drive :
      {A B : Type 0} → Drive V A → (A → ControlledCore V → Drive V B) → Drive V B
  then_drive none k = none
  then_drive (some (ok a, c)) k = k a c
  then_drive (some (err e, c)) k = some (err e, c)
  then_drive (some (panic, c)) k = some (panic, c)

  -- `self.ensure_not_faulted()?` in front of what follows.
  abbrev pub unless_fault :
      {A : Type 0} → ControlledCore V → (ControlledCore V → Drive V A) → Drive V A
  unless_fault c k = elim (c.fault) [ some error ↦ some (err error, c) | none ↦ k c ]

  abbrev pub is_message_due : Duration → ScheduledWork V → Bool
  is_message_due now w = elim (w.kind) [
    | ScheduledKind.source_event e ↦ false
    | ScheduledKind.message m ↦ leb w.deadline now
  ]

  abbrev pub is_message_later : Duration → ScheduledWork V → Bool
  is_message_later now w = elim (w.kind) [
    | ScheduledKind.source_event e ↦ false
    | ScheduledKind.message m ↦ ltb now w.deadline
  ]

  unfoldable pub pending_work : ControlledCore V → PendingWork
  pending_work c = record {
    pending_now = count (is_message_due c.now) c.scheduled;
    pending_later =
        count (is_message_later c.now) c.scheduled
        + length c.effects
        + count (λ (s : ActiveSource V). s.running) c.sources
        + length c.requests;
  }

  -- The body of the `while let` loop; `again` is the next round.
  unfoldable pub run_round :
      (ℕ → ControlledCore V → Drive V ℕ)
      → ℕ
      → Option (ScheduledWork V) × ControlledCore V
      → Drive V ℕ
  unfolding process_work
  run_round again transitions (none, c) = some (ok transitions, c)
  run_round again transitions (some work, c) =
      then_drive (some (process_work work.kind c)) λ n c'. unless_fault c' (again (transitions + n))

  -- The `while let` loop.
  unfoldable pub run_loop : ℕ → ℕ → ControlledCore V → Drive V ℕ
  unfolding pop_next_due run_round
  run_loop zero transitions c = none
  run_loop (suc fuel) transitions c =
      run_round (λ t c'. run_loop fuel t c') transitions (pop_next_due c)

  unfoldable pub report : ℕ → ControlledCore V → RunReport
  unfolding pending_work
  report transitions c = record {
    transitions = transitions;
    pending_now = (pending_work c).pending_now;
    pending_later = (pending_work c).pending_later;
  }

  abbrev pub end_drive : ℕ → ControlledCore V → Drive V RunReport
  end_drive transitions c = some (ok (report transitions c), c)

  abbrev pub drive_loop : ℕ → ControlledCore V → Drive V RunReport
  drive_loop fuel c = then_drive (run_loop fuel 0 c) end_drive

  unfoldable pub run_until_idle : ℕ → ControlledCore V → Drive V RunReport
  unfolding run_loop report
  run_until_idle fuel c = unless_fault c (drive_loop fuel)

  -- The least deadline after `now` that the test admits.
  unfoldable pub next_deadline :
      (Duration → Bool) → Duration → List (ScheduledWork V) → Option Duration
  next_deadline admits now [] = none
  next_deadline admits now (w ∷ rest) =
      let more = next_deadline admits now rest in
      if ltb now w.deadline && admits w.deadline then earliest w.deadline more else more

  unfoldable pub set_now : Duration → ControlledCore V → ControlledCore V
  set_now now c = record c { now = now }

  -- The `loop` of `advance`.
  unfoldable pub advance_loop : ℕ → Duration → ℕ → ControlledCore V → Drive V ℕ
  unfolding next_deadline run_until_idle set_now
  advance_loop zero target transitions c = none
  advance_loop (suc fuel) target transitions c =
      elim (next_deadline (λ d. leb d target) c.now c.scheduled) [
        | none ↦ some (ok transitions, c)
        | some next ↦
            then_drive (run_until_idle fuel (set_now next c))
              (λ r c'. advance_loop fuel target (transitions + r.transitions) c')
      ]

  -- The last part of `advance`: the clock reaches the target.
  abbrev pub advance_end : ℕ → Duration → ℕ → ControlledCore V → Drive V RunReport
  advance_end fuel target transitions c =
      then_drive (run_until_idle fuel (set_now target c))
        (λ r c'. end_drive (transitions + r.transitions) c')

  abbrev pub advance_to : ℕ → Duration → ControlledCore V → Drive V RunReport
  advance_to fuel target c =
      then_drive (run_until_idle fuel c)
        (λ r c'. then_drive (advance_loop fuel target r.transitions c') (advance_end fuel target))

  abbrev pub advance_by : ℕ → Option Duration → ControlledCore V → Drive V RunReport
  advance_by fuel none c = some (err (RuntimeError.harness HarnessReason.advance_out_of_range), c)
  advance_by fuel (some target) c = advance_to fuel target c

  unfoldable pub advance : ℕ → Duration → ControlledCore V → Drive V RunReport
  unfolding run_until_idle advance_loop set_now report checked_add
  advance fuel duration c = unless_fault c (advance_by fuel (checked_add c.now duration))

  -- The jump to the next deadline, once nothing is due.
  abbrev pub jump : ℕ → ℕ → Option Duration → ControlledCore V → Drive V RunReport
  jump fuel transitions none c = some (err (RuntimeError.harness HarnessReason.no_future_work), c)
  jump fuel transitions (some next) c = advance_end fuel next transitions c

  abbrev pub jump_from : ℕ → RunReport → ControlledCore V → Drive V RunReport
  jump_from fuel r c = jump fuel r.transitions (next_deadline (λ _. true) c.now c.scheduled) c

  abbrev pub to_next : ℕ → ControlledCore V → Drive V RunReport
  to_next fuel c = then_drive (run_until_idle fuel c) (jump_from fuel)

  unfoldable pub advance_to_next : ℕ → ControlledCore V → Drive V RunReport
  unfolding run_until_idle next_deadline set_now report
  advance_to_next fuel c = unless_fault c (to_next fuel)

  unfoldable pub cancel : ControlledCore V → ShutdownReport × ControlledCore V
  unfolding pending_work
  cancel c =
      let pending = pending_work c in
      (
        record {
          completed = 0;
          cancelled = pending.pending_now + pending.pending_later;
          remaining = 0;
          pending_now = 0;
          pending_later = 0;
        },
        record c { scheduled = []; effects = []; sources = []; requests = [] },
      )
