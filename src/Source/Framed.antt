-- ===== src/Source/Framed.antt =====
-- Framed and FramedLayer of src/lib.rs: a pure streaming decoder over another Source.
pub mod Ending
use samara.Prelude.{◌&&◌, ◌==◌, List, [], ◌∷◌, ◌++◌, map}
use samara.Values.{TypeId, SourceError, SourceEvent, ErasedSourceEvent, typed}
use samara.Source.{Layer, LoweredPlan}

-- Result<Vec<Frame>, Error>.
pub data Decoded (V : Type 0) : Type 0 where
  frames : List V → Decoded V
  rejected : V → Decoded V

pub record Decoder (V : Type 0) : Type 0 where
  pub start : V
  pub push : V → V → V × Decoded V
  pub finish : V → V × Decoded V

module _ {V : Type 0} where
  -- The events of FramedLayer::map_event for what the decoder said of a chunk.
  unfoldable pub of_chunk : Decoded V → List (SourceEvent V)
  of_chunk (frames fs) = map SourceEvent.item fs
  of_chunk (rejected e) = SourceEvent.failed (SourceError.decode e) ∷ []

  unfoldable pub of_finish : Decoded V → List (SourceEvent V)
  of_finish (frames fs) = map SourceEvent.item fs ++ SourceEvent.ended ∷ []
  of_finish (rejected e) = SourceEvent.failed (SourceError.decode e) ∷ []

  -- FramedLayer::map_event.
  unfoldable pub frame_event : Decoder V → V → SourceEvent V → V × List (SourceEvent V)
  unfolding of_chunk of_finish
  frame_event decoder state (SourceEvent.item chunk) =
      let (next, decoded) = decoder.push state chunk in (next, of_chunk decoded)
  frame_event decoder state (SourceEvent.failed e) =
      (state, SourceEvent.failed (SourceError.source e) ∷ [])
  frame_event decoder state SourceEvent.ended =
      let (next, decoded) = decoder.finish state in (next, of_finish decoded)

  -- ErasedSourceLayer for FramedLayer: the kind of each event is read off the event again.
  unfoldable pub frame_erased : Decoder V → V → ErasedSourceEvent V → V × List (ErasedSourceEvent V)
  unfolding frame_event typed
  frame_erased decoder state event =
      let (next, events) = frame_event decoder state event.value in (next, map typed events)

  -- Framed::into_layer.
  unfoldable pub into_layer : Decoder V → Layer V
  unfolding frame_erased
  into_layer decoder = record { state = decoder.start; step = frame_erased decoder }

  -- Framed's source plan over the plan of the descriptor inside.
  unfoldable pub framed_plan : LoweredPlan V → TypeId → Decoder V → TypeId → LoweredPlan V
  unfolding into_layer
  framed_plan inner inner_event_type decoder event_type = record inner {
    layers = inner.layers ++ into_layer decoder ∷ [];
    output_event_type = event_type;
    valid_event_chain = inner.valid_event_chain && inner.output_event_type == inner_event_type;
  }
