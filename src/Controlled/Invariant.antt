-- ===== src/Controlled/Invariant.antt =====
-- The well-formedness of a ControlledCore between two steps, and what one operation must keep.
pub mod Rules
pub mod Sources
pub mod Commands
pub mod Deliver
pub mod Ends
pub mod Drive
pub mod Harness
pub mod Init
use samara.Prelude.{
  ◌==◌, subst, ℕ, zero, suc, ◌≤◌, ◌<◌, ◌≡◌, ◌≢◌, refl, ◌+◌, option_ind, Option, none, some, Bool,
  true, List, [], ◌∷◌, ◌++◌, length, is_some, All, All-snoc, All-mono, length-snoc, Rises,
  Rises-snoc, arith,
}
use samara.Values.{TypeId, ErasedValue, TraceId, TypeName, Duration}
use samara.Ids.{ComponentId}
use samara.Errors.{FaultReason, RuntimeError, Result, ok, err, panic}
use samara.Controlled.State.{
  TraceEvent, TraceRecord, QueuedMessage, QueuedSourceEvent, ScheduledKind, ScheduledWork,
  PendingEffectEntry, OutstandingRequest, ActiveSource, ControlledCore,
}
use samara.Controlled.Trace.{push_trace, set_fault, fail_with}
use samara.Controlled.Queue.{schedule}
use samara.Controlled.Sources.{and_then}

-- A cause stands before position `n` of the trace; a root has none.
abbrev pub Precedes : Option TraceId → ℕ → Type 0
Precedes none n = Unit
Precedes (some cause) n = cause < n

-- From position `n` on, each record's identity is its position and its cause stands before it.
abbrev pub IsCausal : ℕ → List TraceRecord → Type 0
IsCausal n [] = Unit
IsCausal n (r ∷ rs) = (r.id ≡ n) × Precedes r.cause n × IsCausal (suc n) rs

-- The instants do not fall, from `lo` on and up to `hi`.
abbrev pub IsChronological : Duration → List TraceRecord → Duration → Type 0
IsChronological lo [] hi = lo ≤ hi
IsChronological lo (r ∷ rs) hi = (lo ≤ r.at) × IsChronological r.at rs hi

module _ {V : Type 0} where
  abbrev pub cause_of : ScheduledKind V → TraceId
  cause_of (ScheduledKind.message m) = m.cause
  cause_of (ScheduledKind.source_event e) = e.cause

  abbrev pub IsCaused : ℕ → ScheduledWork V → Type 0
  IsCaused n w = cause_of w.kind < n

  -- A descriptor that is still held is of the type that the entry names.
  abbrev pub IsHeld : TypeId → Option (ErasedValue V) → Type 0
  IsHeld type none = Unit
  IsHeld type (some intent) = intent.type_id ≡ type

  abbrev pub IsRequested : ℕ → PendingEffectEntry V → Type 0
  IsRequested n e = (e.request_trace < n) × IsHeld e.descriptor_type e.descriptor

  pub record Inv (c : ControlledCore V) : Type 0 where
    pub causal : IsCausal 0 c.trace
    pub chronological : IsChronological 0 c.trace c.now
    pub work_caused : All (IsCaused (length c.trace)) c.scheduled
    pub effects_requested : All (IsRequested (length c.trace)) c.effects
    pub tickets : Rises (λ w. w.ticket) 0 c.scheduled c.next_ticket
    pub effect_ids : Rises (λ e. e.id) 0 c.effects c.next_effect
    pub correlations : Rises (λ r. r.correlation) 0 c.requests c.next_correlation
    pub generations : Rises (λ s. s.stamp.generation) 0 c.sources c.next_generation
    pub replies_mapped : All (λ r. is_some r.mapper ≡ true) c.requests

  -- The trace does not shrink, and the logical time and the Program's identity stay.
  abbrev pub Extends : ControlledCore V → ControlledCore V → Type 0
  Extends c c' =
      (length c.trace ≤ length c'.trace)
      × (c'.now ≡ c.now)
      × (c'.program.program ≡ c.program.program)

  -- What one operation makes of a well-formed core: it stays well formed, it extends the
  -- old one, and there is no panic.
  pub record Good {A : Type 0} (c : ControlledCore V) (r : Result A × ControlledCore V)
      : Type 0 where
    pub inv : Inv r.1
    pub grows : Extends c r.1
    pub no_panic : r.0 ≢ panic

module _ {V : Type 0} where
  -- So it is of the type that the entry was found by.
  pub held_type :
      (type wanted : TypeId) (held : Option (ErasedValue V)) (intent : ErasedValue V)
      → IsHeld type held
      → held ≡ some intent
      → (type == wanted) ≡ true
      → (intent.type_id == wanted) ≡ true
  held_type type wanted held intent own e found =
      let same : intent.type_id ≡ type = subst (IsHeld type) e own in rw same found

pub IsCausal-snoc :
    (n : ℕ) (rs : List TraceRecord) (r : TraceRecord) (m : ℕ)
    → IsCausal n rs
    → n + length rs ≡ m
    → r.id ≡ m
    → Precedes r.cause m
    → IsCausal n (rs ++ r ∷ [])
IsCausal-snoc n [] r m h e i p = let e' : n ≡ m = omega arith in rw e' (i, p, tt)
IsCausal-snoc n (x ∷ rs) r m h e i p =
    (h.0, h.1, IsCausal-snoc (suc n) rs r m h.2 (omega arith) i p)

pub IsChronological-snoc :
    (lo : Duration) (rs : List TraceRecord) (r : TraceRecord) (hi : Duration)
    → IsChronological lo rs hi
    → r.at ≡ hi
    → IsChronological lo (rs ++ r ∷ []) hi
IsChronological-snoc lo [] r hi h e = (omega arith, omega arith)
IsChronological-snoc lo (x ∷ rs) r hi h e = (h.0, IsChronological-snoc x.at rs r hi h.1 e)
