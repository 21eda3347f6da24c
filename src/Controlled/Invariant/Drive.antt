-- ===== src/Controlled/Invariant/Drive.antt =====
-- The drive operations keep the invariant; logical time only moves forward.
use samara.Prelude.{
  ℕ, zero, suc, ◌+◌, ◌≡◌, ◌≢◌, ◌<◌, ◌≤◌, refl, Bool, true, Option, none, some, Option-cases, List,
  [], ◌∷◌, ◌&&◌, length, leb, ltb, if_ind, option_ind, subst, arith, All, All-remove_at,
  Rises-remove_at, All-get_elem?, inl, inr, get_elem?,
}
use samara.Values.{Duration, checked_add, checked_add-sum}
use samara.Controlled.State.{TraceRecord, ScheduledWork, ControlledCore}
use samara.Controlled.Queue.{min_due, pop_next_due}
use samara.Controlled.Queue.Order.{Finds, min_due-Finds}
use samara.Controlled.Deliver.{process_work}
use samara.Controlled.Drive.Deadlines.{IsNext, FindsNext, next_deadline-FindsNext}
use samara.Controlled.Drive.{
  Drive, run_round, then_drive, run_loop, drive_loop, end_drive, advance_end, advance_to,
  advance_by, jump, jump_from, to_next, run_until_idle, next_deadline, set_now, advance_loop,
  advance, advance_to_next,
}
use samara.Controlled.Invariant.{IsChronological, IsCaused, cause_of, Inv, Extends}
use samara.Controlled.Invariant.Deliver.{process_work-Good}
use samara.Controlled.Invariant.Ends.{
  Ends, Kept, Later, Ends-of_Good, Ends-mono, then_drive-Ends, unless_fault-Ends,
}

IsChronological-raise :
    (lo : Duration) (rs : List TraceRecord) (hi higher : Duration)
    → hi ≤ higher
    → IsChronological lo rs hi
    → IsChronological lo rs higher
IsChronological-raise lo [] hi higher l h = omega arith
IsChronological-raise lo (r ∷ rs) hi higher l h =
    (h.0, IsChronological-raise r.at rs hi higher l h.1)

module _ {V : Type 0} where
  pop-Inv :
      (c : ControlledCore V) (i : ℕ) {w : ScheduledWork V}
      → Inv c
      → get_elem? c.scheduled i ≡ some w
      → Inv (record c { scheduled = samara.Prelude.remove_at i c.scheduled })
        × (cause_of w.kind < length c.trace)
  pop-Inv c i v at = (
    record {
      causal = v.causal;
      chronological = v.chronological;
      work_caused = All-remove_at (IsCaused (length c.trace)) i c.scheduled v.work_caused;
      effects_requested = v.effects_requested;
      tickets = Rises-remove_at (λ w. w.ticket) i 0 c.scheduled c.next_ticket v.tickets;
      effect_ids = v.effect_ids;
      correlations = v.correlations;
      generations = v.generations;
      replies_mapped = v.replies_mapped;
    },
    All-get_elem? (IsCaused (length c.trace)) c.scheduled i v.work_caused at,
  )

  -- After a pop: the work that came out is caused, and the core is as good as before.
  abbrev Popped : ControlledCore V → Option (ScheduledWork V) × ControlledCore V → Type 0
  Popped c (none, c') = Inv c' × Extends c c'
  Popped c (some w, c') = Inv c' × Extends c c' × (cause_of w.kind < length c'.trace)

  pop_next_due-Popped : (c : ControlledCore V) → Inv c → Popped c (pop_next_due c)
  unfolding pop_next_due
  pop_next_due-Popped c v = from (min_due c.now c.scheduled) (min_due-Finds c.now c.scheduled)
    where
      from :
          (found : Option (ℕ × ScheduledWork V))
          → Finds c.now c.scheduled found
          → Popped c (elim found [
            | none ↦ (none, c)
            | some (i, w) ↦
                (some w, record c { scheduled = samara.Prelude.remove_at i c.scheduled })
          ])
      from none h = (v, (omega arith, refl, refl))
      from (some (i, w)) h = let p = pop-Inv c i v h.at in (p.0, (omega arith, refl, refl), p.1)

  run_round-Ends :
      (again : ℕ → ControlledCore V → Drive V ℕ) (transitions : ℕ)
      (popped : Option (ScheduledWork V) × ControlledCore V)
      → ((t : ℕ) (c' : ControlledCore V) → Inv c' → Ends (Kept c') (again t c'))
      → (c : ControlledCore V) → Popped c popped
      → Ends (Kept c) (run_round again transitions popped)
  unfolding run_round
  run_round-Ends again transitions (none, c') h c p = p
  run_round-Ends again transitions (some w, c') h c p =
      then_drive-Ends (Kept c') (Kept c) (some (process_work w.kind c')) _
        (λ x k. (k.0, omega arith)) (Ends-of_Good c' _ (process_work-Good w.kind c' p.0 p.2))
        λ n x k.
          unless_fault-Ends (Kept c) x (again (transitions + n)) (k.0, omega arith)
            (Ends-mono (Kept x) (Kept c) _ (λ y l. (l.0, omega arith)) (h (transitions + n) x k.0))

  run_loop-Ends :
      (fuel transitions : ℕ) (c : ControlledCore V)
      → Inv c
      → Ends (Kept c) (run_loop fuel transitions c)
  unfolding run_loop
  run_loop-Ends zero transitions c v = tt
  run_loop-Ends (suc fuel) transitions c v =
      run_round-Ends (λ t c'. run_loop fuel t c') transitions (pop_next_due c)
        (λ t c' v'. run_loop-Ends fuel t c' v') c (pop_next_due-Popped c v)

  pub run_until_idle-Ends :
      (fuel : ℕ) (c : ControlledCore V) → Inv c → Ends (Kept c) (run_until_idle fuel c)
  unfolding run_until_idle
  run_until_idle-Ends fuel c v =
      unless_fault-Ends (Kept c) c (drive_loop fuel) (v, omega arith)
        (then_drive-Ends (Kept c) (Kept c) (run_loop fuel 0 c) end_drive (λ x k. k)
          (run_loop-Ends fuel 0 c v) (λ t x k. k))

  set_now-Inv :
      (target : Duration) (c : ControlledCore V) → c.now ≤ target → Inv c → Inv (set_now target c)
  unfolding set_now
  set_now-Inv target c l v = record {
    causal = v.causal;
    chronological = IsChronological-raise 0 c.trace c.now target l v.chronological;
    work_caused = v.work_caused;
    effects_requested = v.effects_requested;
    tickets = v.tickets;
    effect_ids = v.effect_ids;
    correlations = v.correlations;
    generations = v.generations;
    replies_mapped = v.replies_mapped;
  }

  -- A run at a later instant.
  pub run_at-Ends :
      (fuel : ℕ) (c : ControlledCore V) (target : Duration)
      → c.now ≤ target
      → Inv c
      → Ends (λ x. Later c x × (x.now ≡ target)) (run_until_idle fuel (set_now target c))
  unfolding set_now
  run_at-Ends fuel c target l v =
      Ends-mono (Kept (set_now target c)) _ (run_until_idle fuel (set_now target c))
        (λ x k. ((k.0, omega arith), omega arith))
        (run_until_idle-Ends fuel (set_now target c) (set_now-Inv target c l v))

  pub advance_loop-Ends :
      (fuel : ℕ) (target : Duration) (transitions : ℕ) (c : ControlledCore V)
      → c.now ≤ target
      → Inv c
      → Ends (λ x. Later c x × (x.now ≤ target)) (advance_loop fuel target transitions c)
  unfolding advance_loop
  advance_loop-Ends zero target transitions c l v = tt
  advance_loop-Ends (suc fuel) target transitions c l v =
      let admits : Duration → Bool = λ d. leb d target in
      option_ind (Ends (λ x. Later c x × (x.now ≤ target))) (next_deadline admits c.now c.scheduled)
        (λ _. ((v, omega arith), l))
        λ next e.
          let found : IsNext admits c.now c.scheduled next =
            subst (FindsNext admits c.now c.scheduled) e
              (next_deadline-FindsNext admits c.now c.scheduled) in
          then_drive-Ends (λ x. Later c x × (x.now ≡ next)) _ (run_until_idle fuel (set_now next c))
            _ (λ x k. (k.0, ground arith))
            (run_at-Ends fuel c next (let a = found.after in omega arith) v)
            λ r x k.
              Ends-mono (λ y. Later x y × (y.now ≤ target)) _
                (advance_loop fuel target (transitions + r.transitions) x)
                (λ y h. ((h.0.0, omega arith), h.1))
                (advance_loop-Ends fuel target (transitions + r.transitions) x (ground arith) k.0.0)

  pub advance_end-Ends :
      (fuel : ℕ) (target : Duration) (transitions : ℕ) (c : ControlledCore V)
      → c.now ≤ target
      → Inv c
      → Ends (λ x. Later c x × (x.now ≡ target)) (advance_end fuel target transitions c)
  advance_end-Ends fuel target transitions c l v =
      then_drive-Ends (λ x. Later c x × (x.now ≡ target)) _ (run_until_idle fuel (set_now target c))
        (λ r c'. end_drive (transitions + r.transitions) c') (λ x k. k)
        (run_at-Ends fuel c target l v) (λ r x k. k)

  advance_to-Ends :
      (fuel : ℕ) (target : Duration) (c : ControlledCore V)
      → c.now ≤ target
      → Inv c
      → Ends (Later c) (advance_to fuel target c)
  advance_to-Ends fuel target c l v =
      then_drive-Ends (Kept c) (Later c) (run_until_idle fuel c)
        (λ r x. then_drive (advance_loop fuel target r.transitions x) (advance_end fuel target))
        (λ x k. (k.0, omega arith)) (run_until_idle-Ends fuel c v)
        λ r x k.
          then_drive-Ends (λ y. Later x y × (y.now ≤ target)) (Later c)
            (advance_loop fuel target r.transitions x) (advance_end fuel target)
            (λ y h. (h.0.0, omega arith))
            (advance_loop-Ends fuel target r.transitions x (omega arith) k.0)
            λ t y h.
              Ends-mono (λ z. Later y z × (z.now ≡ target)) (Later c) (advance_end fuel target t y)
                (λ z g. (g.0.0, omega arith)) (advance_end-Ends fuel target t y h.1 h.0.0)

  advance_by-Ends :
      (fuel : ℕ) (target : Option Duration) (c : ControlledCore V)
      → ((t : Duration) → target ≡ some t → c.now ≤ t)
      → Inv c
      → Ends (Later c) (advance_by fuel target c)
  advance_by-Ends fuel none c l v = (v, omega arith)
  advance_by-Ends fuel (some target) c l v = advance_to-Ends fuel target c (l target refl) v

  pub advance-Ends :
      (fuel : ℕ) (duration : Duration) (c : ControlledCore V)
      → Inv c
      → Ends (Later c) (advance fuel duration c)
  unfolding advance
  advance-Ends fuel duration c v =
      unless_fault-Ends (Later c) c (advance_by fuel (checked_add c.now duration)) (v, omega arith)
        (advance_by-Ends fuel (checked_add c.now duration) c
          (λ t e. omega (arith, checked_add-sum c.now duration t e)) v)

  jump-Ends :
      (fuel transitions : ℕ) (next : Option Duration) (c : ControlledCore V)
      → FindsNext (λ _. true) c.now c.scheduled next
      → Inv c
      → Ends (Later c) (jump fuel transitions next c)
  jump-Ends fuel transitions none c h v = (v, omega arith)
  jump-Ends fuel transitions (some next) c h v =
      Ends-mono (λ z. Later c z × (z.now ≡ next)) (Later c) (advance_end fuel next transitions c)
        (λ z g. g.0) (advance_end-Ends fuel next transitions c (let a = h.after in omega arith) v)

  pub advance_to_next-Ends :
      (fuel : ℕ) (c : ControlledCore V) → Inv c → Ends (Later c) (advance_to_next fuel c)
  unfolding advance_to_next
  advance_to_next-Ends fuel c v =
      unless_fault-Ends (Later c) c (to_next fuel) (v, omega arith)
        (then_drive-Ends (Kept c) (Later c) (run_until_idle fuel c) (jump_from fuel)
          (λ x k. (k.0, omega arith)) (run_until_idle-Ends fuel c v)
          λ r x k.
            Ends-mono (Later x) (Later c) (jump_from fuel r x) (λ z g. (g.0, omega arith))
              (jump-Ends fuel r.transitions (next_deadline (λ _. true) x.now x.scheduled) x
                (next_deadline-FindsNext (λ _. true) x.now x.scheduled) k.0))
