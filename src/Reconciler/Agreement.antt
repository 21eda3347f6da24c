-- ===== src/Reconciler/Agreement.antt =====
-- `reconcile` makes the active set agree with the desired set.
use samara.Prelude.{
  ◌≡◌, refl, true, false, Bool-cases, none, some, inl, inr, List, [], ◌∷◌, ◌++◌, map, if_ind,
  option_ind, find, update_first, arith, ◌||◌, ◌&&◌, ◌↔◌, subst, ap, ℕ, ◌+◌, ◌≤◌, count,
}
use samara.Ids.{SubscriptionId, id_eq, id_eq_iff, id_eq_self}
use samara.Subscription.{Subscription, Subscriptions, has_descriptor}
use samara.Reconciler.{
  ActiveDescriptor, SubscriptionReconciler, SubscriptionChange, Reconciled, changes, duplicate,
  has_id, find_duplicate, is_active, snapshot_of, refresh, compare_one, compare_all,
  cancel_undesired, ids_of, reconcile,
}

abbrev occurrences : SubscriptionId → List SubscriptionId → ℕ
occurrences id ids = count (λ other. id_eq other id) ids

occurrences-has_id :
    (id : SubscriptionId) (ids : List SubscriptionId)
    → (has_id id ids ≡ true) ↔ (1 ≤ occurrences id ids)
unfolding has_id
occurrences-has_id id [] = ground arith
occurrences-has_id id (x ∷ ids) = ground (arith, occurrences-has_id id ids)

-- A new identity that is not there yet keeps the others at one occurrence.
fresh_once :
    (new x : SubscriptionId) (ids : List SubscriptionId)
    → has_id new ids ≡ false
    → occurrences x ids ≤ 1
    → occurrences x (new ∷ ids) ≤ 1
fresh_once new x ids absent h = elim (Bool-cases (id_eq new x)) [
  | inl e ↦
      let gone : has_id x ids ≡ false =
        subst (λ y. has_id y ids ≡ false) ((id_eq_iff new x).0 e) absent in
      ground (arith, occurrences-has_id x ids, e)
  | inr e ↦ ground (arith, e)
]

module _ {V : Type 0} where
  abbrev pub active_ids : List (ActiveDescriptor V) → List SubscriptionId
  active_ids active = map (λ a. a.id) active

  find-has_id :
      (id : SubscriptionId) (active : List (ActiveDescriptor V)) (a : ActiveDescriptor V)
      → find (is_active id) active ≡ some a
      → has_id id (active_ids active) ≡ true
  unfolding has_id
  find-has_id id [] a h = cc
  find-has_id id (x ∷ active) a h = ground (arith, find-has_id id active a)

  -- An identity that is there adds nothing.
  absorb :
      (id new : SubscriptionId) (active : List (ActiveDescriptor V)) (a : ActiveDescriptor V)
      → find (is_active new) active ≡ some a
      → has_id id (active_ids active) ≡ (has_id id (active_ids active) || id_eq new id)
  absorb id new active a h = elim (Bool-cases (id_eq new id)) [
    | inl e ↦
        rw
          (
            e,
            subst (λ x. has_id x (active_ids active) ≡ true) ((id_eq_iff new id).0 e)
                (find-has_id new active a h),
          )
          refl
    | inr e ↦ ground (arith, e)
  ]

  snoc-has_id :
      (id : SubscriptionId) (s : Subscription V) (active : List (ActiveDescriptor V))
      → has_id id (active_ids (active ++ snapshot_of s ∷ []))
        ≡ (has_id id (active_ids active) || id_eq s.id id)
  unfolding has_id snapshot_of
  snoc-has_id id s [] = ground arith
  snoc-has_id id s (a ∷ active) = ground (arith, snoc-has_id id s active)

  ids-refresh :
      (s : Subscription V) (active : List (ActiveDescriptor V))
      → active_ids (update_first (is_active s.id) (refresh s) active) ≡ active_ids active
  unfolding refresh
  ids-refresh s [] = refl
  ids-refresh s (a ∷ active) = ground (arith, ids-refresh s active)

  -- The members after one comparison: those before, and the one that was compared.
  compare_one-has_id :
      (id : SubscriptionId) (active : List (ActiveDescriptor V)) (s : Subscription V)
      → has_id id (active_ids (compare_one active s).0)
        ≡ (has_id id (active_ids active) || id_eq s.id id)
  unfolding compare_one has_id
  compare_one-has_id id active s =
      option_ind
        (λ (r : List (ActiveDescriptor V) × SubscriptionChange V).
          has_id id (active_ids r.0) ≡ (has_id id (active_ids active) || id_eq s.id id))
        (find (is_active s.id) active) (λ _. snoc-has_id id s active)
        λ a found.
          if_ind
            (λ (r : List (ActiveDescriptor V) × SubscriptionChange V).
              has_id id (active_ids r.0) ≡ (has_id id (active_ids active) || id_eq s.id id))
            (has_descriptor s a.descriptor) (λ _. absorb id s.id active a found)
            (λ _. rw (ids-refresh s active) (absorb id s.id active a found))

  compare_all-has_id :
      (id : SubscriptionId) (active : List (ActiveDescriptor V)) (desired : Subscriptions V)
      → has_id id (active_ids (compare_all active desired).0)
        ≡ (has_id id (active_ids active) || has_id id (ids_of desired))
  unfolding compare_all has_id
  compare_all-has_id id active [] = ground arith
  compare_all-has_id id active (s ∷ desired) = ground (
    arith,
    compare_one-has_id id active s,
    compare_all-has_id id (compare_one active s).0 desired,
  )

  cancel_undesired-has_id :
      (id : SubscriptionId) (desired : List SubscriptionId) (active : List (ActiveDescriptor V))
      → has_id id (active_ids (cancel_undesired desired active).0)
        ≡ (has_id id (active_ids active) && has_id id desired)
  unfolding cancel_undesired has_id
  cancel_undesired-has_id id desired [] = refl
  cancel_undesired-has_id id desired (a ∷ active) = elim (Bool-cases (id_eq a.id id)) [
    | inl e ↦
        let same : has_id a.id desired ≡ has_id id desired =
          ap (λ x. has_id x desired) ((id_eq_iff a.id id).0 e) in
        ground (arith, cancel_undesired-has_id id desired active)
    | inr e ↦ ground (arith, cancel_undesired-has_id id desired active)
  ]

  find_duplicate-twice :
      (seen : List SubscriptionId) (desired : Subscriptions V) (id : SubscriptionId)
      → find_duplicate seen desired ≡ some id
      → 2 ≤ occurrences id seen + occurrences id (ids_of desired)
  unfolding find_duplicate
  find_duplicate-twice seen [] id h = cc
  find_duplicate-twice seen (s ∷ desired) id h = elim (Bool-cases (has_id s.id seen)) [
    | inl e ↦
        let same : s.id ≡ id = ground arith in
        subst (λ x. 2 ≤ occurrences x seen + occurrences x (ids_of (s ∷ desired))) same
          (let there = (occurrences-has_id s.id seen).0 e in
            let here = id_eq_self s.id in ground arith)
    | inr e ↦ let rest = find_duplicate-twice (s.id ∷ seen) desired id (ground arith) in omega arith
  ]

  find_duplicate-once :
      (seen : List SubscriptionId) (desired : Subscriptions V)
      → find_duplicate seen desired ≡ none
      → ((id : SubscriptionId) → occurrences id seen ≤ 1)
      → (id : SubscriptionId) → occurrences id seen + occurrences id (ids_of desired) ≤ 1
  unfolding find_duplicate
  find_duplicate-once seen [] h once id = omega (arith, once id)
  find_duplicate-once seen (s ∷ desired) h once id = elim (Bool-cases (has_id s.id seen)) [
    | inl e ↦ ground arith
    | inr e ↦
        let rest =
          find_duplicate-once (s.id ∷ seen) desired (ground arith)
            (λ x. fresh_once s.id x seen e (once x)) id in
        omega arith
  ]

  -- What `reconcile` promises.
  abbrev pub Agrees :
      SubscriptionReconciler V → Subscriptions V → SubscriptionReconciler V × Reconciled V → Type 0
  Agrees r desired (r', duplicate id) = (r' ≡ r) × (2 ≤ occurrences id (ids_of desired))
  Agrees r desired (r', changes list) =
      (r'.owner ≡ r.owner)
      × ((id : SubscriptionId)
          → (occurrences id (ids_of desired) ≤ 1)
            × (has_id id (active_ids r'.active) ≡ has_id id (ids_of desired)))

  -- `reconcile` either refuses an identity that the desired set has at least twice, and leaves its
  -- bookkeeping as it was, or no identity is there twice, and from then on the active
  -- identities are exactly the desired ones, for the same owner.
  pub reconcile-Agrees :
      (r : SubscriptionReconciler V) (desired : Subscriptions V)
      → Agrees r desired (reconcile r desired)
  unfolding reconcile
  reconcile-Agrees r desired =
      option_ind (Agrees r desired) (find_duplicate [] desired)
        (λ h. (
          refl,
          λ id. (
            omega (arith, find_duplicate-once [] desired h (λ x. omega arith) id),
            ground (
              arith,
              cancel_undesired-has_id id (ids_of desired) (compare_all r.active desired).0,
              compare_all-has_id id r.active desired,
            ),
          ),
        ))
        (λ id h. (refl, omega (arith, find_duplicate-twice [] desired id h)))
