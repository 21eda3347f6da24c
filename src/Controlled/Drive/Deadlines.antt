-- ===== src/Controlled/Drive/Deadlines.antt =====
-- The search for the next deadline, in `advance` and `advance_to_next`.
use samara.Prelude.{
  ◌≡◌, refl, ◌⊎◌, ◌<◌, ◌≤◌, Bool, true, ◌&&◌, Bool-cases, Option, none, some, List, [], ◌∷◌, ltb,
  leb, All, All-mono, arith, inl, inr,
}
use samara.Values.{Duration}
use samara.Controlled.State.{ScheduledWork}
use samara.Controlled.Drive.{earliest, next_deadline}

module _ {V : Type 0} (admits : Duration → Bool) (now : Duration) where
  abbrev pub IsLater : ScheduledWork V → Type 0
  IsLater w = (now < w.deadline) × (admits w.deadline ≡ true)

  -- A work of the schedule has this deadline.
  abbrev pub IsDeadline : List (ScheduledWork V) → Duration → Type 0
  IsDeadline [] d = ⊥
  IsDeadline (w ∷ works) d = (w.deadline ≡ d) ⊎ IsDeadline works d

  pub record IsNext (works : List (ScheduledWork V)) (d : Duration) : Type 0 where
    pub scheduled : IsDeadline works d
    pub after : now < d
    pub admitted : admits d ≡ true
    pub least : All (λ w. IsLater w → d ≤ w.deadline) works

  abbrev pub FindsNext : List (ScheduledWork V) → Option Duration → Type 0
  FindsNext works none = All (λ w. ¬ IsLater w) works
  FindsNext works (some d) = IsNext works d

  earliest-FindsNext :
      (w : ScheduledWork V) (works : List (ScheduledWork V)) (more : Option Duration)
      → FindsNext works more
      → IsLater w
      → FindsNext (w ∷ works) (earliest w.deadline more)
  earliest-FindsNext w works none h l = record {
    scheduled = inl refl;
    after = l.0;
    admitted = l.1;
    least = (λ _. omega arith, All-mono works (λ x n y. absurd (n y)) h);
  }
  earliest-FindsNext w works (some d) h l = elim (Bool-cases (leb w.deadline d)) [
    | inl e ↦ rw e (record {
      scheduled = inl refl;
      after = l.0;
      admitted = l.1;
      least = (
        λ _. omega arith,
        All-mono works (λ x n y. let m : d ≤ x.deadline = n y in ground arith) h.least,
      );
    })
    | inr e ↦ rw e (record {
      scheduled = inr h.scheduled;
      after = h.after;
      admitted = h.admitted;
      least = (λ _. ground arith, h.least);
    })
  ]

  skip-FindsNext :
      (w : ScheduledWork V) (works : List (ScheduledWork V)) (more : Option Duration)
      → FindsNext works more
      → ¬ IsLater w
      → FindsNext (w ∷ works) more
  skip-FindsNext w works none h l = (l, h)
  skip-FindsNext w works (some d) h l = record {
    scheduled = inr h.scheduled;
    after = h.after;
    admitted = h.admitted;
    least = (λ y. absurd (l y), h.least);
  }

  -- The search finds the deadline of a work that is after `now` and that the test admits, the least
  -- of these; or no work has such a deadline.
  pub next_deadline-FindsNext :
      (works : List (ScheduledWork V)) → FindsNext works (next_deadline admits now works)
  unfolding next_deadline
  next_deadline-FindsNext [] = tt
  next_deadline-FindsNext (w ∷ works) =
      elim (Bool-cases (ltb now w.deadline && admits w.deadline)) [
        | inl e ↦ rw e (
            earliest-FindsNext w works (next_deadline admits now works)
              (next_deadline-FindsNext works) (ground arith, ground arith))
        | inr e ↦ rw e (
            skip-FindsNext w works (next_deadline admits now works) (next_deadline-FindsNext works)
              (λ l. ground arith))
      ]
