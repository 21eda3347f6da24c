-- ===== src/Controlled/Invariant/Ends.antt =====
-- Postconditions of drives, and their rules for the pieces that drives are made of.
use samara.Prelude.{◌≡◌, ◌≤◌, refl, none, some, length, option_ind}
use samara.Errors.{Result, ok, err, panic}
use samara.Controlled.State.{ControlledCore}
use samara.Controlled.Drive.{Drive, then_drive, unless_fault}
use samara.Controlled.Invariant.{Inv, Extends, Good}

module _ {V : Type 0} where
  -- What holds of the core when a drive has ended, whether with a report or an error; a drive
  -- that panics has no such core. Nothing is said of one that runs out of fuel.
  abbrev pub Ends : {A : Type 0} → (ControlledCore V → Type 0) → Drive V A → Type 0
  Ends P none = Unit
  Ends P (some (ok a, c)) = P c
  Ends P (some (err e, c)) = P c
  Ends P (some (panic, c)) = ⊥

  abbrev pub Kept : ControlledCore V → ControlledCore V → Type 0
  Kept c c' = Inv c' × Extends c c'

  abbrev pub Moved : ControlledCore V → ControlledCore V → Type 0
  Moved c c' =
      (length c.trace ≤ length c'.trace)
      × (c.now ≤ c'.now)
      × (c'.program.program ≡ c.program.program)

  -- Logical time may have moved, and never back.
  abbrev pub Later : ControlledCore V → ControlledCore V → Type 0
  Later c c' = Inv c' × Moved c c'

  pub Ends-of_Good :
      {A : Type 0} (c : ControlledCore V) (r : Result A × ControlledCore V)
      → Good c r
      → Ends (Kept c) (some r)
  Ends-of_Good c (ok a, c') g = (g.inv, g.grows)
  Ends-of_Good c (err e, c') g = (g.inv, g.grows)
  Ends-of_Good c (panic, c') g = g.no_panic refl

  pub Ends-mono :
      {A : Type 0} (P Q : ControlledCore V → Type 0) (d : Drive V A)
      → ((c : ControlledCore V) → P c → Q c)
      → Ends P d
      → Ends Q d
  Ends-mono P Q none f h = tt
  Ends-mono P Q (some (ok a, c)) f h = f c h
  Ends-mono P Q (some (err e, c)) f h = f c h
  Ends-mono P Q (some (panic, c)) f h = h

  pub then_drive-Ends :
      {A B : Type 0} (P Q : ControlledCore V → Type 0) (d : Drive V A)
      (k : A → ControlledCore V → Drive V B)
      → ((c : ControlledCore V) → P c → Q c)
      → Ends P d
      → ((a : A) (c : ControlledCore V) → P c → Ends Q (k a c))
      → Ends Q (then_drive d k)
  then_drive-Ends P Q none k f h g = tt
  then_drive-Ends P Q (some (ok a, c)) k f h g = g a c h
  then_drive-Ends P Q (some (err e, c)) k f h g = f c h
  then_drive-Ends P Q (some (panic, c)) k f h g = h

  pub unless_fault-Ends :
      {A : Type 0} (P : ControlledCore V → Type 0) (c : ControlledCore V)
      (k : ControlledCore V → Drive V A)
      → P c
      → Ends P (k c)
      → Ends P (unless_fault c k)
  unless_fault-Ends P c k p h = option_ind (Ends P) c.fault (λ _. h) (λ error _. p)
