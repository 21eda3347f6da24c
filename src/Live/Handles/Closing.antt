-- ===== src/Live/Handles/Closing.antt =====
-- A begun shutdown closes the handles for good.
use samara.Prelude.{ℕ, ◌≡◌, ◌<◌, arith, refl, ap, ◌∙◌, inl, inr, Bool, false, some, if_ind}
use samara.Program.{ComponentRef, Port}
use samara.Live.State.{Shutdown, ScopePhase, LiveEvent, LiveScope}
use samara.Live.Scope.{
  is_running, ingress_refusal, send_event, accept_ingress, shutdown_phase, shutdown_from,
  begin_shutdown,
}
use samara.Live.Tasks.{Live, ingress}
use samara.Live.Sources.{with_scope}
use samara.Live.Lifecycle.{rank, Later, Life, Life-Later}
use samara.Live.Handles.{
  handle_send, handle_notify, handle_request, port_notification, port_request,
}

stopped_rank : (p : ScopePhase) → is_running p ≡ false → 0 < rank p
unfolding is_running
stopped_rank ScopePhase.running e = cc
stopped_rank ScopePhase.draining e = omega arith
stopped_rank ScopePhase.cancelling e = omega arith
stopped_rank ScopePhase.closed e = omega arith
stopped_rank (ScopePhase.faulted x) e = omega arith

rank_stopped : (p : ScopePhase) → 0 < rank p → is_running p ≡ false
unfolding is_running
rank_stopped ScopePhase.running l = absurd (omega arith)
rank_stopped ScopePhase.draining l = refl
rank_stopped ScopePhase.cancelling l = refl
rank_stopped ScopePhase.closed l = refl
rank_stopped (ScopePhase.faulted x) l = refl

Later-stopped : (p q : ScopePhase) → Later p q → is_running p ≡ false → is_running q ≡ false
Later-stopped p q (inl e) h = ap is_running e ∙ h
Later-stopped p q (inr l) h = rank_stopped q (omega (arith, stopped_rank p h, l))

mode-stopped : (mode : Shutdown) → is_running (shutdown_phase mode) ≡ false
unfolding is_running
mode-stopped Shutdown.drain = refl
mode-stopped Shutdown.cancel = refl

module _ {V : Type 0} where
  sent-stopped :
      (event : LiveEvent V) (s : LiveScope V)
      → is_running s.phase ≡ false
      → is_running (send_event event s).1.phase ≡ false
  unfolding send_event
  sent-stopped event s h =
      if_ind (λ (r : Bool × LiveScope V). is_running r.1.phase ≡ false) s.listening (λ _. h)
        (λ _. h)

  from-stopped :
      (phase : ScopePhase) (mode : Shutdown) (s : LiveScope V)
      → s.phase ≡ phase
      → is_running (shutdown_from phase mode s).1.phase ≡ false
  unfolding shutdown_from is_running
  from-stopped ScopePhase.running mode s e =
      sent-stopped (LiveEvent.shutdown mode) (record s { phase = shutdown_phase mode })
        (mode-stopped mode)
  from-stopped ScopePhase.draining mode s e = ap is_running e
  from-stopped ScopePhase.cancelling mode s e = ap is_running e
  from-stopped ScopePhase.closed mode s e = ap is_running e
  from-stopped (ScopePhase.faulted error) mode s e = ap is_running e

  begun-stopped :
      (mode : Shutdown) (s : LiveScope V) → is_running (begin_shutdown mode s).1.phase ≡ false
  unfolding begin_shutdown
  begun-stopped mode s = from-stopped s.phase mode s refl

  accept_ingress-refused :
      (event : LiveEvent V) (s : LiveScope V)
      → is_running s.phase ≡ false
      → accept_ingress event s ≡ (some (ingress_refusal s.phase), s)
  unfolding accept_ingress
  accept_ingress-refused event s h = rw h refl

  -- What every handle answers in a scope: an error, and nothing changes.
  abbrev pub RefusesAll : LiveScope V → Type 0
  RefusesAll s =
      ((target : ComponentRef) (payload : V)
        → handle_send target payload s ≡ (some (ingress_refusal s.phase), s))
      × ((port : Port) (notification : V)
          → handle_notify port notification s ≡ (some (ingress_refusal s.phase), s))
      × ((port : Port) (reply_type : ℕ) (into_message : ℕ → V) (host : ℕ)
          → handle_request port reply_type into_message host s
            ≡ (some (ingress_refusal s.phase), s))

  stopped-RefusesAll : (s : LiveScope V) → is_running s.phase ≡ false → RefusesAll s
  unfolding handle_send handle_notify handle_request
  stopped-RefusesAll s h = (
    λ target payload. accept_ingress-refused (ingress target payload) s h,
    λ port notification. accept_ingress-refused (port_notification port notification) s h,
    λ port reply_type into_message host.
        accept_ingress-refused (port_request port reply_type into_message host) s h,
  )

  -- Once a shutdown was asked for, every Component handle and every Port handle is refused, and its
  -- call changes nothing: as long as the owner task runs, whatever it and the other threads do, while
  -- it faults or closes the scope and cleans up, and ever after.
  pub begin_shutdown-RefusesAll :
      (mode : Shutdown) (l r : Live V)
      → Life (with_scope (λ s. (begin_shutdown mode s).1) l) r
      → RefusesAll r.scope
  begin_shutdown-RefusesAll mode l r h =
      stopped-RefusesAll r.scope (Later-stopped _ _ (Life-Later h) (begun-stopped mode l.scope))
