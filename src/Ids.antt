-- ===== src/Ids.antt =====
-- The logical identities of src/lib.rs: ComponentId, PortId and SubscriptionId wrap an Arc<str>,
-- here the text's bytes, compared and ordered as Rust compares strings.
use samara.Prelude.{
  ℕ, ◌≡◌, refl, ◌↔◌, ◌⊎◌, inl, inr, Bool, true, false, ◌&&◌, ◌||◌, List, [], ◌∷◌, arith, ltb, ◌==◌,
}

abbrev pub Identity : Type 0
Identity = List ℕ

abbrev pub ComponentId : Type 0
ComponentId = Identity

abbrev pub PortId : Type 0
PortId = Identity

abbrev pub SubscriptionId : Type 0
SubscriptionId = Identity

unfoldable pub id_eq : Identity → Identity → Bool
id_eq [] [] = true
id_eq [] (b ∷ bs) = false
id_eq (a ∷ as') [] = false
id_eq (a ∷ as') (b ∷ bs) = a == b && id_eq as' bs

-- The derived order of a text: byte by byte, a proper prefix first.
unfoldable pub id_leb : Identity → Identity → Bool
id_leb [] bs = true
id_leb (a ∷ as') [] = false
id_leb (a ∷ as') (b ∷ bs) = ltb a b || (a == b && id_leb as' bs)

pub id_eq_iff : (a b : Identity) → (id_eq a b ≡ true) ↔ (a ≡ b)
unfolding id_eq
id_eq_iff [] [] = ground arith
id_eq_iff [] (b ∷ bs) = ground arith
id_eq_iff (a ∷ as') [] = ground arith
id_eq_iff (a ∷ as') (b ∷ bs) = ground (arith, id_eq_iff as' bs)

pub id_eq_self : (a : Identity) → id_eq a a ≡ true
id_eq_self a = (id_eq_iff a a).1 refl

pub id_leb_total : (a b : Identity) → (id_leb a b ≡ true) ⊎ (id_leb b a ≡ true)
unfolding id_leb
id_leb_total [] b = inl refl
id_leb_total (a ∷ as') [] = inr refl
id_leb_total (a ∷ as') (b ∷ bs) = ground (arith, id_leb_total as' bs)

pub id_leb_trans : (a b c : Identity) → id_leb a b ≡ true → id_leb b c ≡ true → id_leb a c ≡ true
unfolding id_leb
id_leb_trans [] b c p q = refl
id_leb_trans (a ∷ as') [] c p q = cc
id_leb_trans (a ∷ as') (b ∷ bs) [] p q = cc
id_leb_trans (a ∷ as') (b ∷ bs) (c ∷ cs) p q = ground (arith, id_leb_trans as' bs cs)

pub id_leb_antisym : (a b : Identity) → id_leb a b ≡ true → id_leb b a ≡ true → a ≡ b
unfolding id_leb
id_leb_antisym [] [] p q = refl
id_leb_antisym [] (b ∷ bs) p q = cc
id_leb_antisym (a ∷ as') [] p q = cc
id_leb_antisym (a ∷ as') (b ∷ bs) p q = ground (arith, id_leb_antisym as' bs)
