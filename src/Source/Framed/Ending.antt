-- ===== src/Source/Framed/Ending.antt =====
-- What FramedLayer does to the end of a stream.
use samara.Prelude.{
  ◌≡◌, refl, sym, ap, subst, Bool, true, false, List, [], ◌∷◌, ◌++◌, map, All, append-nil,
}
use samara.Values.{SourceEvent, ErasedSourceEvent, kind_of, is_terminal, typed}
use samara.Source.{map_layer}
use samara.Source.Framed.{
  Decoded, Decoder, frames, rejected, of_chunk, of_finish, frame_event, frame_erased,
}

module _ {V : Type 0} where
  abbrev pub ends : SourceEvent V → Bool
  ends event = is_terminal (kind_of event)

  abbrev pub GoesOn : List (SourceEvent V) → Type 0
  GoesOn events = All (λ e. ends e ≡ false) events

  -- One terminal event, at the very end.
  abbrev pub EndsOnce : List (SourceEvent V) → Type 0
  EndsOnce [] = ⊥
  EndsOnce (e ∷ []) = ends e ≡ true
  EndsOnce (e ∷ f ∷ events) = (ends e ≡ false) × EndsOnce (f ∷ events)

  items-GoesOn : (fs : List V) → GoesOn (map SourceEvent.item fs)
  unfolding kind_of is_terminal
  items-GoesOn [] = tt
  items-GoesOn (f ∷ fs) = (refl, items-GoesOn fs)

  snoc-EndsOnce :
      (events : List (SourceEvent V)) (e : SourceEvent V)
      → GoesOn events
      → ends e ≡ true
      → EndsOnce (events ++ e ∷ [])
  snoc-EndsOnce [] e h t = t
  snoc-EndsOnce (x ∷ []) e h t = (h.0, t)
  snoc-EndsOnce (x ∷ y ∷ events) e h t = (h.0, snoc-EndsOnce (y ∷ events) e h.1 t)

  of_finish-EndsOnce : (d : Decoded V) → EndsOnce (of_finish d)
  unfolding of_finish kind_of is_terminal
  of_finish-EndsOnce (frames fs) =
      snoc-EndsOnce (map SourceEvent.item fs) SourceEvent.ended (items-GoesOn fs) refl
  of_finish-EndsOnce (rejected e) = refl

  append-GoesOn : (a b : List (SourceEvent V)) → GoesOn a → GoesOn b → GoesOn (a ++ b)
  append-GoesOn [] b h k = k
  append-GoesOn (e ∷ a) b h k = (h.0, append-GoesOn a b h.1 k)

  cons-EndsOnce :
      (e : SourceEvent V) (b : List (SourceEvent V))
      → ends e ≡ false
      → EndsOnce b
      → EndsOnce (e ∷ b)
  cons-EndsOnce e [] h k = absurd k
  cons-EndsOnce e (x ∷ b) h k = (h, k)

  append-EndsOnce : (a b : List (SourceEvent V)) → GoesOn a → EndsOnce b → EndsOnce (a ++ b)
  append-EndsOnce [] b h k = k
  append-EndsOnce (e ∷ a) b h k = cons-EndsOnce e (a ++ b) h.0 (append-EndsOnce a b h.1 k)

  -- What comes out of the Layer for a stream below it.
  abbrev pub framed : Decoder V → V → List (SourceEvent V) → List (SourceEvent V)
  framed decoder state events =
      map (λ e. e.value) (map_layer (frame_erased decoder) state (map typed events)).1

  values-typed :
      (xs : List (SourceEvent V)) (ys : List (ErasedSourceEvent V))
      → map (λ (e : ErasedSourceEvent V). e.value) (map typed xs ++ ys)
        ≡ xs ++ map (λ (e : ErasedSourceEvent V). e.value) ys
  unfolding typed
  values-typed [] ys = refl
  values-typed (x ∷ xs) ys = ap (λ r. x ∷ r) (values-typed xs ys)

  framed-cons :
      (decoder : Decoder V) (state : V) (e : SourceEvent V) (events : List (SourceEvent V))
      → framed decoder state (e ∷ events)
        ≡ (frame_event decoder state e).1 ++ framed decoder (frame_event decoder state e).0 events
  unfolding map_layer frame_erased typed
  framed-cons decoder state e events = values-typed (frame_event decoder state e).1 _

  abbrev pub IsAccepted : Decoded V → Type 0
  IsAccepted (frames fs) = Unit
  IsAccepted (rejected e) = ⊥

  -- The decoder rejects none of the chunks.
  abbrev pub Accepts : Decoder V → V → List V → Type 0
  Accepts decoder state [] = Unit
  Accepts decoder state (chunk ∷ chunks) =
      IsAccepted (decoder.push state chunk).1 × Accepts decoder (decoder.push state chunk).0 chunks

  abbrev pub state_after : Decoder V → V → List V → V
  state_after decoder state [] = state
  state_after decoder state (chunk ∷ chunks) =
      state_after decoder (decoder.push state chunk).0 chunks

  -- The stream below ends, or the decoder rejects its next chunk.
  abbrev pub Finishes : Decoder V → V → SourceEvent V → Type 0
  Finishes decoder state (SourceEvent.item chunk) = ¬ IsAccepted (decoder.push state chunk).1
  Finishes decoder state (SourceEvent.failed e) = Unit
  Finishes decoder state SourceEvent.ended = Unit

  accepted-GoesOn : (d : Decoded V) → IsAccepted d → GoesOn (of_chunk d)
  unfolding of_chunk
  accepted-GoesOn (frames fs) h = items-GoesOn fs
  accepted-GoesOn (rejected e) h = absurd h

  rejected-EndsOnce : (d : Decoded V) → ¬ IsAccepted d → EndsOnce (of_chunk d)
  unfolding of_chunk kind_of is_terminal
  rejected-EndsOnce (frames fs) h = absurd (h tt)
  rejected-EndsOnce (rejected e) h = refl

  finish-EndsOnce :
      (decoder : Decoder V) (state : V) (event : SourceEvent V)
      → Finishes decoder state event
      → EndsOnce (frame_event decoder state event).1
  unfolding frame_event kind_of is_terminal
  finish-EndsOnce decoder state (SourceEvent.item chunk) h =
      rejected-EndsOnce (decoder.push state chunk).1 h
  finish-EndsOnce decoder state (SourceEvent.failed e) h = refl
  finish-EndsOnce decoder state SourceEvent.ended h = of_finish-EndsOnce (decoder.finish state).1

  append-nothing : (xs : List (SourceEvent V)) → EndsOnce xs → EndsOnce (xs ++ [])
  append-nothing xs h = subst EndsOnce (sym (append-nil xs)) h

  -- A framed stream ends exactly once: as long as the decoder rejects no chunk, only frames come out;
  -- and once the stream below ends or fails, or the decoder rejects a chunk, all that came out up to
  -- there has exactly one terminal event, the last one.
  pub framed-EndsOnce :
      (decoder : Decoder V) (state : V) (chunks : List V) (last : SourceEvent V)
      → Accepts decoder state chunks
      → Finishes decoder (state_after decoder state chunks) last
      → GoesOn (framed decoder state (map SourceEvent.item chunks))
        × EndsOnce (framed decoder state (map SourceEvent.item chunks ++ last ∷ []))
  unfolding frame_event map_layer
  framed-EndsOnce decoder state [] last h f = (
    tt,
    subst EndsOnce (sym (framed-cons decoder state last []))
        (append-nothing (frame_event decoder state last).1 (finish-EndsOnce decoder state last f)),
  )
  framed-EndsOnce decoder state (chunk ∷ chunks) last h f =
      let next = (decoder.push state chunk).0 in
      let rest = framed-EndsOnce decoder next chunks last h.1 f in
      let first = accepted-GoesOn (decoder.push state chunk).1 h.0 in
      (
        subst GoesOn
            (sym (framed-cons decoder state (SourceEvent.item chunk) (map SourceEvent.item chunks)))
            (append-GoesOn (of_chunk (decoder.push state chunk).1)
              (framed decoder next (map SourceEvent.item chunks)) first rest.0),
        subst EndsOnce
            (sym (
              framed-cons decoder state (SourceEvent.item chunk)
                (map SourceEvent.item chunks ++ last ∷ [])))
            (append-EndsOnce (of_chunk (decoder.push state chunk).1)
              (framed decoder next (map SourceEvent.item chunks ++ last ∷ [])) first rest.1),
      )
