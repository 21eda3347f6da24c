-- ===== src/Controlled/Reach.antt =====
-- The calls by which a test changes a ControlledRuntime after it was built, and the cores that
-- sequences of them reach. `state`, `source_descriptor`, `trace` and `pending_work` only read, and
-- `cancel` consumes the runtime.
use samara.Prelude.{ℕ, ◌≡◌, ◌≢◌, ◌≤◌, some, length, arith, subst}
use samara.Values.{TypeId, CapabilityToken, Duration, EffectOutcome, SourceEvent}
use samara.Ids.{SubscriptionId}
use samara.Errors.{Result, ok, err, panic}
use samara.Program.{Program, ComponentRef}
use samara.Controlled.State.{ControlledBindings, ControlledCore}
use samara.Controlled.Harness.{
  PendingEffect, send, emit_stream, close_stream, emit_source, next_effect, complete,
}
use samara.Controlled.Drive.{Drive, then_drive, run_until_idle, advance, advance_to_next}
use samara.Controlled.Init.{new_core}
use samara.Controlled.Invariant.{Inv, Good}
use samara.Controlled.Invariant.Ends.{Ends, Kept, Later, Ends-of_Good, Ends-mono, then_drive-Ends}
use samara.Controlled.Invariant.Harness.{
  send-Good, emit_stream-Good, close_stream-Good, emit_source-Good, next_effect-Good, complete-Good,
}
use samara.Controlled.Invariant.Drive.{run_until_idle-Ends, advance-Ends, advance_to_next-Ends}
use samara.Controlled.Invariant.Init.{new_core-Inv}

pub data Call (V : Type 0) : Type 0 where
  call_send : ComponentRef → V → Call V
  call_emit_stream : CapabilityToken → TypeId → V → Call V
  call_close_stream : CapabilityToken → Call V
  call_emit_source : ComponentRef → SubscriptionId → TypeId → SourceEvent V → Call V
  call_next_effect : TypeId → Call V
  call_complete : TypeId → PendingEffect V → EffectOutcome V → Call V
  call_run_until_idle : Call V
  call_advance : Duration → Call V
  call_advance_to_next : Call V

module _ {V : Type 0} where
  -- Whether a call ended well is kept, its value is not.
  abbrev forget : {A : Type 0} → Drive V A → Drive V Unit
  forget d = then_drive d (λ _ c. some (ok tt, c))

  unfoldable pub perform : ℕ → Call V → ControlledCore V → Drive V Unit
  unfolding send emit_stream close_stream emit_source next_effect complete run_until_idle advance
      advance_to_next
  perform fuel (call_send target message) c = some (send target message c)
  perform fuel (call_emit_stream token type item) c = some (emit_stream token type item c)
  perform fuel (call_close_stream token) c = some (close_stream token c)
  perform fuel (call_emit_source target id type event) c = some (emit_source target id type event c)
  perform fuel (call_next_effect type) c = forget (some (next_effect type c))
  perform fuel (call_complete type pending outcome) c = some (complete type pending outcome c)
  perform fuel call_run_until_idle c = forget (run_until_idle fuel c)
  perform fuel (call_advance duration) c = forget (advance fuel duration c)
  perform fuel call_advance_to_next c = forget (advance_to_next fuel c)

  -- The cores that calls reach from a new one, whether each call ends well or with an error.
  pub data Reaches (p : Program V) (b : ControlledBindings V) : ControlledCore V → Type 0 where
    begin : Reaches p b (new_core p b).1
    next :
        {c c' : ControlledCore V} (fuel : ℕ) (call : Call V) (r : Result Unit)
        → Reaches p b c
        → perform fuel call c ≡ some (r, c')
        → Reaches p b c'

  Later-of_Good :
      {A : Type 0} (c : ControlledCore V) (r : Result A × ControlledCore V)
      → Good c r
      → Ends (Later c) (some r)
  Later-of_Good c r g =
      Ends-mono (Kept c) (Later c) (some r) (λ x k. (k.0, omega arith)) (Ends-of_Good c r g)

  forget-Ends :
      {A : Type 0} (P : ControlledCore V → Type 0) (d : Drive V A) → Ends P d → Ends P (forget d)
  forget-Ends P d h = then_drive-Ends P P d (λ _ c. some (ok tt, c)) (λ c p. p) h (λ _ c p. p)

  perform-Ends :
      (fuel : ℕ) (call : Call V) (c : ControlledCore V)
      → Inv c
      → Ends (Later c) (perform fuel call c)
  unfolding perform
  perform-Ends fuel (call_send target message) c v =
      Later-of_Good c _ (send-Good target message c v)
  perform-Ends fuel (call_emit_stream token type item) c v =
      Later-of_Good c _ (emit_stream-Good token type item c v)
  perform-Ends fuel (call_close_stream token) c v = Later-of_Good c _ (close_stream-Good token c v)
  perform-Ends fuel (call_emit_source target id type event) c v =
      Later-of_Good c _ (emit_source-Good target id type event c v)
  perform-Ends fuel (call_next_effect type) c v =
      forget-Ends (Later c) (some (next_effect type c))
        (Later-of_Good c _ (next_effect-Good type c v))
  perform-Ends fuel (call_complete type pending outcome) c v =
      Later-of_Good c _ (complete-Good type pending outcome c v)
  perform-Ends fuel call_run_until_idle c v = forget-Ends (Later c) (run_until_idle fuel c) (
      Ends-mono (Kept c) (Later c) (run_until_idle fuel c) (λ x k. (k.0, omega arith))
        (run_until_idle-Ends fuel c v))
  perform-Ends fuel (call_advance duration) c v =
      forget-Ends (Later c) (advance fuel duration c) (advance-Ends fuel duration c v)
  perform-Ends fuel call_advance_to_next c v =
      forget-Ends (Later c) (advance_to_next fuel c) (advance_to_next-Ends fuel c v)

  ended :
      (P : ControlledCore V → Type 0) (r : Result Unit) (c : ControlledCore V)
      → Ends P (some (r, c))
      → P c × (r ≢ panic)
  ended P (ok a) c h = (h, λ e. cc)
  ended P (err a) c h = (h, λ e. cc)
  ended P panic c h = absurd h

  -- Every core that calls reach from a new core is well formed: the trace's identities are its
  -- positions, each cause stands before its effect in the trace and its instants never fall; tickets,
  -- effect identities, correlations and Source generations are strictly increasing in their lists
  -- and below their counters; each outstanding request can map its reply.
  pub Reaches-Inv :
      {p : Program V} {b : ControlledBindings V} {c : ControlledCore V} → Reaches p b c → Inv c
  Reaches-Inv (begin) = new_core-Inv _ _
  Reaches-Inv (next {c = x} fuel call r h e) =
      let after = subst (Ends (Later x)) e (perform-Ends fuel call x (Reaches-Inv h)) in
      (ended (Later x) r _ after).0.0

  -- On a reachable core no call ends in a panic, whatever its arguments and its fuel: the `expect`s, the
  -- index of `initialize`, the unreachable arms of `interpret_command`, and the downcasts of a claimed
  -- descriptor, of an effect's outcome, of a reply and of a Port's Message are never hit. When a call
  -- returns, the logical time has not moved back, the trace has not shrunk and the core still runs the
  -- same Program.
  pub perform-no_panic :
      {p : Program V} {b : ControlledBindings V} {c c' : ControlledCore V} (fuel : ℕ)
      (call : Call V) (r : Result Unit)
      → Reaches p b c
      → perform fuel call c ≡ some (r, c')
      → (r ≢ panic)
        × (c.now ≤ c'.now)
        × (length c.trace ≤ length c'.trace)
        × (c'.program.program ≡ c.program.program)
  perform-no_panic {c = x} fuel call r h e =
      let after = subst (Ends (Later x)) e (perform-Ends fuel call x (Reaches-Inv h)) in
      let result = ended (Later x) r _ after in (result.1, omega arith, omega arith, omega arith)
