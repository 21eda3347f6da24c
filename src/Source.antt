-- ===== src/Source.antt =====
-- SourcePlan of src/lib.rs: a terminal descriptor under a stack of stateful Layers. A Layer's
-- state is a payload and its step a function. `valid_event_chain` and `output_event_type` are the
-- runtime check that the Layers fit together.
pub mod Framed
use samara.Prelude.{ℕ, Bool, true, ◌&&◌, ◌==◌, List, [], ◌∷◌, ◌++◌}
use samara.Values.{TypeId, TypeName, CapabilityToken, SourceEvent, ErasedSourceEvent, typed}

module _ (V : Type 0) where
  pub record Layer : Type 0 where
    pub state : V
    pub step : V → ErasedSourceEvent V → V × List (ErasedSourceEvent V)

  -- What a descriptor lowers to, before a Subscription adds its capability.
  pub record LoweredPlan : Type 0 where
    pub terminal_type : TypeId
    pub terminal_type_name : TypeName
    pub terminal : V
    pub layers : List Layer
    pub output_event_type : TypeId
    pub valid_event_chain : Bool

  -- The runtime's plan: in the source the Option<CapabilityToken> is set by then.
  pub record SourcePlan : Type 0 where
    pub lowered : LoweredPlan
    pub open lowered use *
    pub capability : CapabilityToken

module _ {V : Type 0} where
  -- SourcePlan::terminal.
  unfoldable pub terminal_plan : TypeId → TypeName → TypeId → V → LoweredPlan V
  terminal_plan type_id type_name event_type descriptor = record {
    terminal_type = type_id;
    terminal_type_name = type_name;
    terminal = descriptor;
    layers = [];
    output_event_type = event_type;
    valid_event_chain = true;
  }

  unfoldable pub accepts_output_event_type : SourcePlan V → TypeId → Bool
  accepts_output_event_type plan expected =
      plan.valid_event_chain && plan.output_event_type == expected

  unfoldable pub terminal_ended_event : SourcePlan V → ErasedSourceEvent V
  unfolding typed
  terminal_ended_event plan = typed SourceEvent.ended

  -- One Layer over the events of one batch, in order (the `flat_map`).
  unfoldable pub map_layer :
      (V → ErasedSourceEvent V → V × List (ErasedSourceEvent V))
      → V
      → List (ErasedSourceEvent V)
      → V × List (ErasedSourceEvent V)
  map_layer step state [] = (state, [])
  map_layer step state (event ∷ events) =
      let (next, out) = step state event in
      let (last, rest) = map_layer step next events in (last, out ++ rest)

  -- The fold over the Layers, innermost first.
  unfoldable pub map_layers :
      List (Layer V) → List (ErasedSourceEvent V) → List (Layer V) × List (ErasedSourceEvent V)
  unfolding map_layer
  map_layers [] events = ([], events)
  map_layers (layer ∷ layers) events =
      let (state, out) = map_layer layer.step layer.state events in
      let (after, final) = map_layers layers out in (record layer { state = state } ∷ after, final)

  -- SourcePlan::map_event.
  unfoldable pub map_event :
      SourcePlan V → ErasedSourceEvent V → SourcePlan V × List (ErasedSourceEvent V)
  unfolding map_layers
  map_event plan event =
      let (layers, events) = map_layers plan.layers (event ∷ []) in
      (record plan { lowered = record (plan.lowered) { layers = layers } }, events)
