-- ===== src/Controlled/Queue/Order.antt =====
-- `pop_next_due` takes the due work with the least (deadline, ticket).
use samara.Prelude.{
  ℕ, ◌≡◌, ◌<◌, ◌≤◌, refl, ◌⊎◌, inl, inr, leb, Option, none, some, Bool, Bool-cases, List, [], ◌∷◌,
  All, get_elem?, remove_at, arith, All-mono,
}
use samara.Values.{Duration}
use samara.Controlled.State.{ScheduledWork, ControlledCore}
use samara.Controlled.Queue.{key_leb, earlier, min_due, pop_next_due}

module _ {V : Type 0} where
  -- `a` comes before `b`: an earlier deadline, or the same one and no later ticket.
  abbrev pub Before : ScheduledWork V → ScheduledWork V → Type 0
  Before a b = (a.deadline < b.deadline) ⊎ ((a.deadline ≡ b.deadline) × (a.ticket ≤ b.ticket))

  abbrev pub IsLeast : Duration → ScheduledWork V → List (ScheduledWork V) → Type 0
  IsLeast now w works = All (λ x. x.deadline ≤ now → Before w x) works

  -- What the search finds.
  pub record Found (now : Duration) (works : List (ScheduledWork V)) (i : ℕ) (w : ScheduledWork V)
      : Type 0 where
    pub at : get_elem? works i ≡ some w
    pub due : w.deadline ≤ now
    pub least : IsLeast now w works

  abbrev pub Finds : Duration → List (ScheduledWork V) → Option (ℕ × ScheduledWork V) → Type 0
  Finds now works none = All (λ x. now < x.deadline) works
  Finds now works (some (i, w)) = Found now works i w

  Before-of_key : (a b : ScheduledWork V) → key_leb a b ≡ Bool.true → Before a b
  Before-of_key a b h = ground arith

  Before-of_not_key : (a b : ScheduledWork V) → key_leb a b ≡ Bool.false → Before b a
  Before-of_not_key a b h = ground arith

  Before-trans : (a b x : ScheduledWork V) → Before a b → Before b x → Before a x
  Before-trans a b x (inl p) (inl q) = inl (omega arith)
  Before-trans a b x (inl p) (inr q) = inl (omega arith)
  Before-trans a b x (inr p) (inl q) = inl (omega arith)
  Before-trans a b x (inr p) (inr q) = inr (omega arith, omega arith)

  earlier-Finds :
      (now : Duration) (w : ScheduledWork V) (rest : List (ScheduledWork V))
      (best : Option (ℕ × ScheduledWork V))
      → Finds now rest best
      → Finds now (w ∷ rest) (earlier now w best)
  unfolding earlier
  earlier-Finds now w rest none h = elim (Bool-cases (leb w.deadline now)) [
    | inl e ↦ rw e (record {
      at = refl;
      due = ground arith;
      least = (λ _. inr (refl, omega arith), All-mono rest (λ x l d. absurd (omega arith)) h);
    })
    | inr e ↦ rw e (ground arith, h)
  ]
  earlier-Finds now w rest (some (i, best)) h = elim (Bool-cases (leb w.deadline now)) [
    | inl e ↦ elim (Bool-cases (key_leb w best)) [
      | inl f ↦
          rw (e, f)
            (record {
              at = refl;
              due = ground arith;
              least = (
                λ _. inr (refl, omega arith),
                All-mono rest (λ x l d. Before-trans w best x (Before-of_key w best f) (l d))
                    h.least,
              );
            })
      | inr f ↦
          rw (e, f)
            (record { at = h.at; due = h.due; least = (λ _. Before-of_not_key w best f, h.least) })
    ]
    | inr e ↦
        rw e (record { at = h.at; due = h.due; least = (λ d. absurd (ground arith), h.least) })
  ]

  pub min_due-Finds :
      (now : Duration) (works : List (ScheduledWork V)) → Finds now works (min_due now works)
  unfolding min_due
  min_due-Finds now [] = tt
  min_due-Finds now (w ∷ rest) =
      earlier-Finds now w rest (min_due now rest) (min_due-Finds now rest)

  -- What `pop_next_due` answers.
  abbrev pub Pops : ControlledCore V → Option (ScheduledWork V) × ControlledCore V → Type 0
  Pops c (none, c') = (c' ≡ c) × All (λ x. c.now < x.deadline) c.scheduled
  Pops c (some w, c') =
      (i : ℕ) × Found c.now c.scheduled i w
      × (c' ≡ record c { scheduled = remove_at i c.scheduled })

  -- If some work is due, the pop takes out exactly one: the one whose deadline is least, and among
  -- equal deadlines the one with the least ticket. Otherwise nothing changes, and nothing is due.
  pub pop_next_due-Pops : (c : ControlledCore V) → Pops c (pop_next_due c)
  unfolding pop_next_due
  pop_next_due-Pops c = from (min_due c.now c.scheduled) (min_due-Finds c.now c.scheduled)
    where
      from :
          (found : Option (ℕ × ScheduledWork V))
          → Finds c.now c.scheduled found
          → Pops c (elim found [
            | none ↦ (none, c)
            | some (i, w) ↦ (some w, record c { scheduled = remove_at i c.scheduled })
          ])
      from none h = (refl, h)
      from (some (i, w)) h = (i, h, refl)
