-- ===== src/Live/Gates.antt =====
-- What the gate of a Source lets through: the events of a Driver up to the first terminal one.
use samara.Prelude.{
  ℕ, ◌≡◌, refl, sym, ◌∙◌, ap, Bool, true, false, some, List, [], ◌∷◌, ◌++◌, map, append-nil,
  append_assoc, find, find_test, update_first, if◌then◌else◌, Bool-cases, inl, inr, ◌==◌, ==_iff,
}
use mathlib.Core.Option
use samara.Values.{ErasedSourceEvent}
use samara.Live.State.{SourceGateState, SourceSinkCore, LiveEvent, LiveScope}
use samara.Live.Scope.{
  is_running, is_active_gate, send_event, accept_source, is_sink, sink_of, set_state, stop_gate,
  update_sink, gate_accept, send_through, sink_send, gate_stop,
}

-- The entry that is found is found again when it is changed in place.
find-update :
    (generation : ℕ) (f : SourceSinkCore → SourceSinkCore) (xs : List SourceSinkCore)
    {x : SourceSinkCore}
    → ((y : SourceSinkCore) → (f y).stamp ≡ y.stamp)
    → find (is_sink generation) xs ≡ some x
    → find (is_sink generation) (update_first (is_sink generation) f xs) ≡ some (f x)
find-update generation f [] k e = cc
find-update generation f (y ∷ xs) {x} k e = elim (Bool-cases (is_sink generation y)) [
  | inl h ↦ rw h (
      ap (λ b. if b then some (f y) else find (is_sink generation) xs)
        (ap (λ stamp. stamp.generation == generation) (k y) ∙ h)
      ∙ ap (λ o. Option.map f o) (rw h at e))
  | inr h ↦ rw h (rw h (find-update generation f xs k (rw h at e)))
]

module _ {V : Type 0} where
  -- The calls of a Driver on its sink, in order, each with whether it is a terminal one.
  unfoldable pub send_all : ℕ → List (ErasedSourceEvent V × Bool) → LiveScope V → LiveScope V
  unfolding sink_send
  send_all generation [] s = s
  send_all generation ((event, terminal) ∷ rest) s =
      send_all generation rest (sink_send generation event terminal s).1

  -- The specification: the events up to the first terminal one, with it.
  abbrev pub up_to_terminal : List (ErasedSourceEvent V × Bool) → List (ErasedSourceEvent V)
  up_to_terminal [] = []
  up_to_terminal ((event, terminal) ∷ rest) = event ∷ (if terminal then [] else up_to_terminal rest)

  abbrev pub stamped : SourceSinkCore → ErasedSourceEvent V → LiveEvent V
  stamped sink event = LiveEvent.source_event sink.stamp sink.terminal_type event

  -- A running scope whose owner task listens.
  abbrev pub IsListening : LiveScope V → Type 0
  IsListening s = (is_running s.phase ≡ true) × (s.listening ≡ true)

  -- The event of a running scope's Driver is in the channel.
  abbrev enqueued : LiveEvent V → LiveScope V → LiveScope V
  enqueued event s = record s { queue = s.queue ++ event ∷ [] }

  accept_source-listening :
      (event : LiveEvent V) (s : LiveScope V)
      → IsListening s
      → accept_source event s ≡ (true, enqueued event s)
  unfolding accept_source send_event
  accept_source-listening event s l = rw l.0 (rw l.1)

  gate_accept-inactive :
      (sink : SourceSinkCore) (event : ErasedSourceEvent V) (terminal : Bool) (s : LiveScope V)
      → is_active_gate sink.state ≡ false
      → (gate_accept sink event terminal s).1 ≡ s
  unfolding gate_accept
  gate_accept-inactive sink event terminal s h = rw h

  gate_accept-active :
      (sink : SourceSinkCore) (event : ErasedSourceEvent V) (terminal : Bool) (s : LiveScope V)
      → IsListening s
      → is_active_gate sink.state ≡ true
      → (gate_accept sink event terminal s).1 ≡ (
          if terminal
          then update_sink sink.stamp.generation
              (set_state SourceGateState.terminal_accepted)
              (enqueued (stamped sink event) s)
          else enqueued (stamped sink event) s)
  unfolding gate_accept
  gate_accept-active sink event terminal s l h =
      rw h (rw (accept_source-listening (stamped sink event) s l))

  -- A gate that is not active lets nothing through.
  pub send_all-inactive :
      (generation : ℕ) (list : List (ErasedSourceEvent V × Bool)) (s : LiveScope V)
      {sink : SourceSinkCore}
      → sink_of generation s ≡ some sink
      → is_active_gate sink.state ≡ false
      → send_all generation list s ≡ s
  unfolding send_all sink_send send_through
  send_all-inactive generation [] s e h = refl
  send_all-inactive generation ((event, terminal) ∷ rest) s {sink} e h =
      ap (λ found. send_all generation rest (send_through found event terminal s).1) e
      ∙ ap (send_all generation rest) (gate_accept-inactive sink event terminal s h)
      ∙ send_all-inactive generation rest s e h

  -- The call of the sink that was found, and then the rest.
  send_all-first :
      (generation : ℕ) (event : ErasedSourceEvent V) (terminal : Bool)
      (rest : List (ErasedSourceEvent V × Bool)) (s t : LiveScope V) {sink : SourceSinkCore}
      → sink_of generation s ≡ some sink
      → (gate_accept sink event terminal s).1 ≡ t
      → send_all generation ((event, terminal) ∷ rest) s ≡ send_all generation rest t
  unfolding send_all sink_send send_through
  send_all-first generation event terminal rest s t e h =
      ap (λ found. send_all generation rest (send_through found event terminal s).1) e
      ∙ ap (send_all generation rest) h

  gate_closed :
      (generation : ℕ) (s : LiveScope V) (event : LiveEvent V) {sink : SourceSinkCore}
      → sink_of generation s ≡ some sink
      → sink_of generation (
          update_sink sink.stamp.generation
            (set_state SourceGateState.terminal_accepted)
            (enqueued event s))
        ≡ some (set_state SourceGateState.terminal_accepted sink)
  unfolding update_sink
  gate_closed generation s event {sink} e =
      ap
        (λ g.
          find (is_sink generation)
            (update_first (is_sink g) (set_state SourceGateState.terminal_accepted) s.sinks))
        ((==_iff sink.stamp.generation generation).0 (find_test (is_sink generation) s.sinks e))
      ∙ find-update generation (set_state SourceGateState.terminal_accepted) s.sinks (λ y. refl) e

  send_all-active :
      (generation : ℕ) (list : List (ErasedSourceEvent V × Bool)) (s : LiveScope V)
      (sink : SourceSinkCore)
      → IsListening s
      → sink_of generation s ≡ some sink
      → is_active_gate sink.state ≡ true
      → (send_all generation list s).queue ≡ s.queue ++ map (stamped sink) (up_to_terminal list)
  unfolding send_all update_sink
  send_all-active generation [] s sink l e h = sym (append-nil s.queue)
  send_all-active generation ((event, false) ∷ rest) s sink l e h =
      ap (λ t. t.queue)
        (send_all-first generation event false rest s _ e
          (gate_accept-active sink event false s l h))
      ∙ send_all-active generation rest (enqueued (stamped sink event) s) sink l e h
      ∙ append_assoc s.queue (stamped sink event ∷ []) _
  send_all-active generation ((event, true) ∷ rest) s sink l e h =
      let closed =
        update_sink sink.stamp.generation (set_state SourceGateState.terminal_accepted)
          (enqueued (stamped sink event) s) in
      ap (λ t. t.queue)
        (send_all-first generation event true rest s closed e
          (gate_accept-active sink event true s l h))
      ∙ ap (λ t. t.queue)
          (send_all-inactive generation rest closed
            (gate_closed generation s (stamped sink event) e) refl)

  gate_stopped :
      (generation : ℕ) (s : LiveScope V) {sink : SourceSinkCore}
      → sink_of generation s ≡ some sink
      → sink_of generation (gate_stop generation s).1 ≡ some (stop_gate sink)
  unfolding gate_stop update_sink
  gate_stopped generation s e = find-update generation stop_gate s.sinks (λ y. refl) e

  -- In a running scope whose owner task listens, the calls that a Driver makes on the sink of an
  -- active Source put its events into the channel in their order, up to the first terminal one, and
  -- nothing after it. Once the gate has been stopped, no call changes anything.
  pub send_all-up_to_terminal :
      (generation : ℕ) (list : List (ErasedSourceEvent V × Bool)) (s : LiveScope V)
      (sink : SourceSinkCore)
      → IsListening s
      → sink_of generation s ≡ some sink
      → is_active_gate sink.state ≡ true
      → ((send_all generation list s).queue ≡ s.queue ++ map (stamped sink) (up_to_terminal list))
        × (send_all generation list (gate_stop generation s).1 ≡ (gate_stop generation s).1)
  send_all-up_to_terminal generation list s sink l e h = (
    send_all-active generation list s sink l e h,
    send_all-inactive generation list (gate_stop generation s).1 (gate_stopped generation s e) refl,
  )
