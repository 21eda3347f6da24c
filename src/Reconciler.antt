-- ===== src/Reconciler.antt =====
-- src/declarative_work.rs: SubscriptionReconciler, the descriptor-only lifecycle comparison of one
-- Component's desired subscriptions with the active ones.
pub mod Agreement
use samara.Prelude.{
  Bool, Option, none, some, List, [], ◌∷◌, ◌++◌, map, if◌then◌else◌, any, find, update_first,
}
use samara.Ids.{ComponentId, SubscriptionId, id_eq}
use samara.Subscription.{Subscription, Snapshot, Subscriptions, descriptor_snapshot, has_descriptor}

module _ (V : Type 0) where
  pub record ActiveDescriptor : Type 0 where
    pub id : SubscriptionId
    pub descriptor : Snapshot V

  pub record SubscriptionReconciler : Type 0 where
    pub owner : ComponentId
    pub active : List ActiveDescriptor

  pub data SubscriptionChange : Type 0 where
    start retain replace : Subscription V → SubscriptionChange
    cancel : SubscriptionId → SubscriptionChange

-- Result of `reconcile`: the changes, or DuplicateSubscriptionIdError.
pub data Reconciled (V : Type 0) : Type 0 where
  changes : List (SubscriptionChange V) → Reconciled V
  duplicate : SubscriptionId → Reconciled V

-- Membership in the HashSet of desired identities, here the list of those inserted.
unfoldable pub has_id : SubscriptionId → List SubscriptionId → Bool
has_id id ids = any (λ other. id_eq other id) ids

module _ {V : Type 0} where
  unfoldable pub new_reconciler : ComponentId → SubscriptionReconciler V
  new_reconciler owner = record { owner = owner; active = [] }

  -- The first loop: the first identity that was inserted before.
  unfoldable pub find_duplicate : List SubscriptionId → Subscriptions V → Option SubscriptionId
  unfolding has_id
  find_duplicate seen [] = none
  find_duplicate seen (s ∷ rest) =
      let more = find_duplicate (s.id ∷ seen) rest in if has_id s.id seen then some s.id else more

  abbrev pub is_active : SubscriptionId → ActiveDescriptor V → Bool
  is_active id a = id_eq a.id id

  unfoldable pub snapshot_of : Subscription V → ActiveDescriptor V
  unfolding descriptor_snapshot
  snapshot_of s = record { id = s.id; descriptor = descriptor_snapshot s }

  unfoldable pub refresh : Subscription V → ActiveDescriptor V → ActiveDescriptor V
  unfolding descriptor_snapshot
  refresh s a = record a { descriptor = descriptor_snapshot s }

  -- The body of the second loop for one desired subscription.
  unfoldable pub compare_one :
      List (ActiveDescriptor V) → Subscription V → List (ActiveDescriptor V) × SubscriptionChange V
  unfolding has_descriptor snapshot_of refresh
  compare_one active s = elim (find (is_active s.id) active) [
    | none ↦ (active ++ snapshot_of s ∷ [], SubscriptionChange.start s)
    | some a ↦
        if has_descriptor s a.descriptor
        then (active, SubscriptionChange.retain s)
        else (update_first (is_active s.id) (refresh s) active, SubscriptionChange.replace s)
  ]

  unfoldable pub compare_all :
      List (ActiveDescriptor V)
      → Subscriptions V
      → List (ActiveDescriptor V) × List (SubscriptionChange V)
  unfolding compare_one
  compare_all active [] = (active, [])
  compare_all active (s ∷ rest) =
      let (next, change) = compare_one active s in
      let (last, more) = compare_all next rest in (last, change ∷ more)

  -- The `while` loop that removes what is no longer desired.
  unfoldable pub cancel_undesired :
      List SubscriptionId
      → List (ActiveDescriptor V)
      → List (ActiveDescriptor V) × List (SubscriptionChange V)
  unfolding has_id
  cancel_undesired desired [] = ([], [])
  cancel_undesired desired (a ∷ active) =
      let (kept, cancels) = cancel_undesired desired active in
      if has_id a.id desired
      then (a ∷ kept, cancels)
      else (kept, SubscriptionChange.cancel a.id ∷ cancels)

  abbrev pub ids_of : Subscriptions V → List SubscriptionId
  ids_of desired = map (λ s. s.id) desired

  unfoldable pub reconcile :
      SubscriptionReconciler V → Subscriptions V → SubscriptionReconciler V × Reconciled V
  unfolding find_duplicate compare_all cancel_undesired
  reconcile r desired = elim (find_duplicate [] desired) [
    | some id ↦ (r, duplicate id)
    | none ↦
        let (compared, found) = compare_all r.active desired in
        let (kept, cancels) = cancel_undesired (ids_of desired) compared in
        (record r { active = kept }, changes (found ++ cancels))
  ]
