-- ===== src/Controlled/Idle.antt =====
-- What a drive that succeeded has achieved.
use samara.Prelude.{
  ℕ, zero, suc, ◌+◌, ◌≡◌, ◌≤◌, ◌<◌, refl, Option, none, some, List, [], ◌∷◌, All, count, false,
  option_ind, subst, arith,
}
use samara.Values.{Duration, checked_add, checked_add-sum}
use samara.Errors.{ok, err, panic}
use samara.Controlled.State.{ScheduledKind, ScheduledWork, ControlledCore}
use samara.Controlled.Queue.{pop_next_due}
use samara.Controlled.Queue.Order.{Pops, pop_next_due-Pops}
use samara.Controlled.Drive.{
  Drive, RunReport, then_drive, unless_fault, run_round, run_loop, end_drive, drive_loop, report,
  pending_work, is_message_due, run_until_idle, advance, advance_by, advance_loop, advance_end,
  set_now,
}
use samara.Controlled.Deliver.{process_work}
use samara.Controlled.Invariant.{Inv}
use samara.Controlled.Invariant.Ends.{Ends, Kept, Later}
use samara.Controlled.Invariant.Drive.{run_at-Ends, run_until_idle-Ends, advance_loop-Ends}

module _ {V : Type 0} where
  -- What holds of the report and the core if the drive ends well.
  abbrev pub Yields : {A : Type 0} → (A → ControlledCore V → Type 0) → Drive V A → Type 0
  Yields P none = Unit
  Yields P (some (ok a, c)) = P a c
  Yields P (some (err e, c)) = Unit
  Yields P (some (panic, c)) = Unit

  then_drive-Yields :
      {A B : Type 0} (P : A → ControlledCore V → Type 0) (Q : B → ControlledCore V → Type 0)
      (d : Drive V A) (k : A → ControlledCore V → Drive V B)
      → Yields P d
      → ((a : A) (c : ControlledCore V) → P a c → Yields Q (k a c))
      → Yields Q (then_drive d k)
  then_drive-Yields P Q none k h g = tt
  then_drive-Yields P Q (some (ok a, c)) k h g = g a c h
  then_drive-Yields P Q (some (err e, c)) k h g = tt
  then_drive-Yields P Q (some (panic, c)) k h g = tt

  unless_fault-Yields :
      {A : Type 0} (P : A → ControlledCore V → Type 0) (c : ControlledCore V)
      (k : ControlledCore V → Drive V A)
      → Yields P (k c)
      → Yields P (unless_fault c k)
  unless_fault-Yields P c k h = option_ind (Yields P) c.fault (λ _. h) (λ error _. tt)

  Yields-any : {A : Type 0} (d : Drive V A) → Yields (λ _ _. Unit) d
  Yields-any none = tt
  Yields-any (some (ok a, c)) = tt
  Yields-any (some (err e, c)) = tt
  Yields-any (some (panic, c)) = tt

  -- All the work that is left lies in the future.
  abbrev pub IsIdle : ControlledCore V → Type 0
  IsIdle c = All (λ w. c.now < w.deadline) c.scheduled

  run_round-IsIdle :
      (again : ℕ → ControlledCore V → Drive V ℕ) (transitions : ℕ) (c : ControlledCore V)
      (popped : Option (ScheduledWork V) × ControlledCore V)
      → Pops c popped
      → ((t : ℕ) (c' : ControlledCore V) → Yields (λ _ x. IsIdle x) (again t c'))
      → Yields (λ _ x. IsIdle x) (run_round again transitions popped)
  unfolding run_round
  run_round-IsIdle again transitions c (none, c') p h = rw p.0 p.1
  run_round-IsIdle again transitions c (some w, c') p h =
      then_drive-Yields (λ _ _. Unit) (λ _ x. IsIdle x) (some (process_work w.kind c')) _
        (Yields-any (some (process_work w.kind c')))
        λ n x _.
          unless_fault-Yields (λ _ x. IsIdle x) x (again (transitions + n)) (h (transitions + n) x)

  run_loop-IsIdle :
      (fuel transitions : ℕ) (c : ControlledCore V)
      → Yields (λ _ x. IsIdle x) (run_loop fuel transitions c)
  unfolding run_loop
  run_loop-IsIdle zero transitions c = tt
  run_loop-IsIdle (suc fuel) transitions c =
      run_round-IsIdle (λ t c'. run_loop fuel t c') transitions c (pop_next_due c)
        (pop_next_due-Pops c) (λ t c'. run_loop-IsIdle fuel t c')

  not_due : (now : Duration) (w : ScheduledWork V) → now < w.deadline → is_message_due now w ≡ false
  not_due now w h = from w.kind refl
    where
      from : (k : ScheduledKind V) → w.kind ≡ k → is_message_due now w ≡ false
      from (ScheduledKind.source_event e) s = rw s refl
      from (ScheduledKind.message m) s = rw s (ground arith)

  none_due :
      (now : Duration) (works : List (ScheduledWork V))
      → All (λ w. now < w.deadline) works
      → count (is_message_due now) works ≡ 0
  none_due now [] h = refl
  none_due now (w ∷ works) h = rw (not_due now w h.0) (omega (arith, none_due now works h.1))

  abbrev pub EndsIdle : RunReport → ControlledCore V → Type 0
  EndsIdle r c = IsIdle c × (r.pending_now ≡ 0)

  -- When `run_until_idle` ends well, all the work that is left in the scheduler lies strictly in the
  -- future, Source events included, and the report counts nothing as pending now.
  pub run_until_idle-IsIdle :
      (fuel : ℕ) (c : ControlledCore V) → Yields EndsIdle (run_until_idle fuel c)
  unfolding run_until_idle report pending_work
  run_until_idle-IsIdle fuel c = unless_fault-Yields EndsIdle c (drive_loop fuel) (
      then_drive-Yields (λ _ x. IsIdle x) EndsIdle (run_loop fuel 0 c) end_drive
        (run_loop-IsIdle fuel 0 c) (λ t x h. (h, none_due x.now x.scheduled h)))

  Yields-of_Ends :
      {A : Type 0} (P : ControlledCore V → Type 0) (d : Drive V A)
      → Ends P d
      → Yields (λ _ x. P x) d
  Yields-of_Ends P none h = tt
  Yields-of_Ends P (some (ok a, c)) h = h
  Yields-of_Ends P (some (err e, c)) h = tt
  Yields-of_Ends P (some (panic, c)) h = tt

  Yields-both :
      {A : Type 0} (P Q : A → ControlledCore V → Type 0) (d : Drive V A)
      → Yields P d
      → Yields Q d
      → Yields (λ a x. P a x × Q a x) d
  Yields-both P Q none h g = tt
  Yields-both P Q (some (ok a, c)) h g = (h, g)
  Yields-both P Q (some (err e, c)) h g = tt
  Yields-both P Q (some (panic, c)) h g = tt

  abbrev pub EndsAt : Duration → RunReport → ControlledCore V → Type 0
  EndsAt target r c = (c.now ≡ target) × EndsIdle r c

  advance_end-EndsAt :
      (fuel : ℕ) (target : Duration) (transitions : ℕ) (c : ControlledCore V)
      → c.now ≤ target
      → Inv c
      → Yields (EndsAt target) (advance_end fuel target transitions c)
  unfolding report pending_work
  advance_end-EndsAt fuel target transitions c l v =
      then_drive-Yields (λ r x. (Later c x × (x.now ≡ target)) × EndsIdle r x) (EndsAt target)
        (run_until_idle fuel (set_now target c)) (λ r x. end_drive (transitions + r.transitions) x)
        (Yields-both (λ _ x. Later c x × (x.now ≡ target)) EndsIdle
          (run_until_idle fuel (set_now target c))
          (Yields-of_Ends (λ x. Later c x × (x.now ≡ target))
            (run_until_idle fuel (set_now target c)) (run_at-Ends fuel c target l v))
          (run_until_idle-IsIdle fuel (set_now target c)))
        (λ r x k. (k.0.1, (k.1.0, none_due x.now x.scheduled k.1.0)))

  advance_by-EndsAt :
      (fuel : ℕ) (target : Option Duration) (duration : Duration) (c : ControlledCore V)
      → ((t : Duration) → target ≡ some t → t ≡ c.now + duration)
      → Inv c
      → Yields (EndsAt (c.now + duration)) (advance_by fuel target c)
  advance_by-EndsAt fuel none duration c l v = tt
  advance_by-EndsAt fuel (some t) duration c l v =
      let same = l t refl in
      then_drive-Yields (λ _ x. Kept c x) (EndsAt (c.now + duration)) (run_until_idle fuel c)
        (λ r x. then_drive (advance_loop fuel t r.transitions x) (advance_end fuel t))
        (Yields-of_Ends (Kept c) (run_until_idle fuel c) (run_until_idle-Ends fuel c v))
        λ r x k.
          then_drive-Yields (λ _ y. Later x y × (y.now ≤ t)) (EndsAt (c.now + duration))
            (advance_loop fuel t r.transitions x) (advance_end fuel t)
            (Yields-of_Ends (λ y. Later x y × (y.now ≤ t)) (advance_loop fuel t r.transitions x)
              (advance_loop-Ends fuel t r.transitions x (omega arith) k.0))
            λ n y h.
              subst (λ u. Yields (EndsAt u) (advance_end fuel t n y)) same
                (advance_end-EndsAt fuel t n y h.1 h.0.0)

  -- When `advance` ends well on a well-formed core, the logical time has moved by the whole duration
  -- that was asked for, and all the work that is left lies strictly after it.
  pub advance-EndsAt :
      (fuel : ℕ) (duration : Duration) (c : ControlledCore V)
      → Inv c
      → Yields (EndsAt (c.now + duration)) (advance fuel duration c)
  unfolding advance
  advance-EndsAt fuel duration c v =
      unless_fault-Yields (EndsAt (c.now + duration)) c
        (advance_by fuel (checked_add c.now duration))
        (advance_by-EndsAt fuel (checked_add c.now duration) duration c
          (checked_add-sum c.now duration) v)
