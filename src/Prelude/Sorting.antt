-- ===== src/Prelude/Sorting.antt =====
-- Lists whose keys rise strictly: the shape of every table that is filled from a counter.
use Prim.Native.Nat.{ℕ, zero, suc, ◌≤◌, ◌<◌}
use mathlib.Core.Path.{◌≡◌, refl}
use mathlib.Core.Bool.{Bool, true}
use mathlib.Core.Logic.{inl, inr}
use mathlib.Core.List.{List, [], ◌∷◌, ◌++◌}
use mathlib.Core.Option.{some, none}
use native.Mathlib.Omega.{arith}
use samara.Prelude.Tests.{if_ind, Bool-cases}
use samara.Prelude.Lists.{find, remove_first, remove_at, update_first}

-- The keys of `xs` rise strictly from `lo` on and stay below `hi`.
abbrev pub Rises {ℓ} : {A : Type ℓ} → (A → ℕ) → ℕ → List A → ℕ → Type 0
Rises key lo [] hi = lo ≤ hi
Rises key lo (x ∷ xs) hi = (lo ≤ key x) × Rises key (suc (key x)) xs hi

pub some-same {ℓ} : {A : Type ℓ} {a b : A} → some a ≡ some b → a ≡ b
some-same e = cc

module _ {ℓ} {A : Type ℓ} (key : A → ℕ) where
  pub Rises-le : (lo : ℕ) (xs : List A) (hi : ℕ) → Rises key lo xs hi → lo ≤ hi
  Rises-le lo [] hi h = h
  Rises-le lo (x ∷ xs) hi h = omega (arith, Rises-le (suc (key x)) xs hi h.1)

  pub Rises-lower :
      (lo lower : ℕ) (xs : List A) (hi : ℕ)
      → lower ≤ lo
      → Rises key lo xs hi
      → Rises key lower xs hi
  Rises-lower lo lower [] hi l h = omega arith
  Rises-lower lo lower (x ∷ xs) hi l h = (omega arith, h.1)

  -- The next entry takes the counter's value.
  pub Rises-snoc :
      (lo : ℕ) (xs : List A) (x : A) (hi : ℕ)
      → Rises key lo xs hi
      → key x ≡ hi
      → Rises key lo (xs ++ x ∷ []) (suc hi)
  Rises-snoc lo [] x hi h e = (omega arith, omega arith)
  Rises-snoc lo (y ∷ xs) x hi h e = (h.0, Rises-snoc (suc (key y)) xs x hi h.1 e)

  pub Rises-remove_at :
      (n lo : ℕ) (xs : List A) (hi : ℕ) → Rises key lo xs hi → Rises key lo (remove_at n xs) hi
  Rises-remove_at n lo [] hi h = h
  Rises-remove_at zero lo (x ∷ xs) hi h = Rises-lower _ lo xs hi (omega arith) h.1
  Rises-remove_at (suc n) lo (x ∷ xs) hi h = (h.0, Rises-remove_at n (suc (key x)) xs hi h.1)

  pub Rises-remove_first :
      (p : A → Bool) (lo : ℕ) (xs : List A) (hi : ℕ)
      → Rises key lo xs hi
      → Rises key lo (remove_first p xs) hi
  Rises-remove_first p lo [] hi h = h
  Rises-remove_first p lo (x ∷ xs) hi h =
      if_ind (λ l. Rises key lo l hi) (p x) (λ _. Rises-lower _ lo xs hi (omega arith) h.1)
        (λ _. (h.0, Rises-remove_first p (suc (key x)) xs hi h.1))

  pub Rises-update_first :
      (p : A → Bool) (f : A → A) (lo : ℕ) (xs : List A) (hi : ℕ)
      → ((x : A) → key (f x) ≡ key x)
      → Rises key lo xs hi
      → Rises key lo (update_first p f xs) hi
  Rises-update_first p f lo [] hi same h = h
  Rises-update_first p f lo (x ∷ xs) hi same h =
      if_ind (λ l. Rises key lo l hi) (p x) (λ _. rw (same x) h)
        (λ _. (h.0, Rises-update_first p f (suc (key x)) xs hi same h.1))

  -- What is found from `lo` on has no smaller key.
  pub find-above :
      (p : A → Bool) (lo : ℕ) (xs : List A) (hi : ℕ) (x : A)
      → Rises key lo xs hi
      → find p xs ≡ some x
      → lo ≤ key x
  find-above p lo [] hi x h e = cc
  find-above p lo (y ∷ xs) hi x h e = elim (Bool-cases (p y)) [
    | inl t ↦ let same : y ≡ x = some-same (rw t at e) in rw⁻¹ same h.0
    | inr f ↦
        let above = find-above p (suc (key y)) xs hi x h.1 (rw f at e) in omega (arith, h.0, above)
  ]

  -- No entry from `lo` on has a smaller key.
  pub find-below :
      (p : A → Bool) (k lo : ℕ) (xs : List A) (hi : ℕ)
      → ((x : A) → p x ≡ true → key x ≡ k)
      → Rises key lo xs hi
      → k < lo
      → find p xs ≡ none
  find-below p k lo [] hi f h l = refl
  find-below p k lo (x ∷ xs) hi f h l = elim (Bool-cases (p x)) [
    | inl e ↦ absurd (omega (arith, f x e))
    | inr e ↦ rw e (find-below p k (suc (key x)) xs hi f h.1 (omega arith))
  ]

  -- A key is there once: when its entry is removed, the key is gone.
  pub find-remove_first :
      (p : A → Bool) (k lo : ℕ) (xs : List A) (hi : ℕ)
      → ((x : A) → p x ≡ true → key x ≡ k)
      → Rises key lo xs hi
      → find p (remove_first p xs) ≡ none
  find-remove_first p k lo [] hi f h = refl
  find-remove_first p k lo (x ∷ xs) hi f h = elim (Bool-cases (p x)) [
    | inl e ↦ rw e (find-below p k (suc (key x)) xs hi f h.1 (omega (arith, f x e)))
    | inr e ↦ rw e (rw e (find-remove_first p k (suc (key x)) xs hi f h.1))
  ]
