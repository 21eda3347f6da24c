-- ===== src/Controlled/Init/Order.antt =====
-- The order in which `initialize` starts the Components.
use samara.Prelude.{ℕ, ◌-◌, ◌≤◌, ◌≡◌, true, some, List, [], ◌∷◌, All, get_elem?}
use mathlib.Core.List.{Permᴰ}
use mathlib.Core.List.Permᴰ
use samara.Ids.{ComponentId, id_leb}
use samara.Kernel.{ComponentKernel}
use samara.Controlled.Init.{indexed}

abbrev Entry : Type 0
Entry = ℕ × ComponentId

abbrev pub IsSorted : List Entry → Type 0
IsSorted [] = Unit
IsSorted (x ∷ xs) = All (λ y. id_leb x.1 y.1 ≡ true) xs × IsSorted xs

module _ {V : Type 0} where
  -- The entry names a Component at its index, counted from `n`.
  abbrev NamesFrom : ℕ → List (ComponentKernel V) → Entry → Type 0
  NamesFrom n ks x =
      (n ≤ x.0) × (k : ComponentKernel V) × (get_elem? ks (x.0 - n) ≡ some k) × (k.id ≡ x.1)

  abbrev pub Names : List (ComponentKernel V) → Entry → Type 0
  Names ks x = (k : ComponentKernel V) × (get_elem? ks x.0 ≡ some k) × (k.id ≡ x.1)

  -- The order of the starts of `ks`: sorted by identity, each Component once, and each entry with the
  -- index of a Component of its identity.
  pub record IsStartOrder (ks : List (ComponentKernel V)) (order : List Entry) : Type 0 where
    pub sorted : IsSorted order
    pub each_once : Permᴰ order (indexed 0 ks)
    pub names : All (Names ks) order
