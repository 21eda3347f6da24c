-- ===== src/Subscription.antt =====
-- Subscription and its descriptor snapshot of src/lib.rs. PartialEq of the descriptor's type is a
-- function that both carry.
use samara.Prelude.{Bool, ◌&&◌, ◌==◌, List}
use samara.Values.{TypeId, TypeName, CapabilityToken, SourceEvent, same_as, ErasedSourceEvent}
use samara.Ids.{SubscriptionId}
use samara.Source.{LoweredPlan, SourcePlan}

module _ (V : Type 0) where
  pub record Subscription : Type 0 where
    pub id : SubscriptionId
    pub capability : CapabilityToken
    pub descriptor_type : TypeId
    pub descriptor_type_name : TypeName
    pub descriptor : V
    pub descriptor_eq : V → V → Bool
    pub lowered : LoweredPlan V
    pub source_event_type : TypeId
    pub mapper : SourceEvent V → V

  -- SourceDescriptorSnapshot.
  pub record Snapshot : Type 0 where
    pub capability : CapabilityToken
    pub descriptor_type : TypeId
    pub descriptor : V
    pub descriptor_eq : V → V → Bool

  abbrev pub Subscriptions : Type 0
  Subscriptions = List Subscription

module _ {V : Type 0} where
  unfoldable pub descriptor_snapshot : Subscription V → Snapshot V
  descriptor_snapshot s = record {
    capability = s.capability;
    descriptor_type = s.descriptor_type;
    descriptor = s.descriptor;
    descriptor_eq = s.descriptor_eq;
  }

  unfoldable pub source_plan : Subscription V → SourcePlan V
  source_plan s = record { lowered = s.lowered; capability = s.capability }

  -- SourceDescriptorSnapshot::matches: the downcast succeeds at the snapshot's own type alone.
  unfoldable pub matches : Snapshot V → CapabilityToken → TypeId → V → Bool
  unfolding same_as
  matches snapshot capability descriptor_type descriptor =
      same_as snapshot.capability capability
      && (descriptor_type == snapshot.descriptor_type
          && snapshot.descriptor_eq descriptor snapshot.descriptor)

  unfoldable pub has_descriptor : Subscription V → Snapshot V → Bool
  unfolding matches
  has_descriptor s snapshot = matches snapshot s.capability s.descriptor_type s.descriptor

  unfoldable pub map_erased_source_event : Subscription V → ErasedSourceEvent V → V
  map_erased_source_event s event = s.mapper event.value
