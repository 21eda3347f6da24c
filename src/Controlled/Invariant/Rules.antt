-- ===== src/Controlled/Invariant/Rules.antt =====
-- The primitives of a ControlledCore keep it well formed, and rules for composing operations.
use samara.Prelude.{
  suc, ◌<◌, ◌≡◌, refl, option_ind, Option, some, length, All-snoc, All-mono, length-snoc,
  Rises-snoc, arith,
}
use samara.Values.{TraceId, TypeName, Duration}
use samara.Ids.{ComponentId}
use samara.Errors.{FaultReason, RuntimeError, Result, ok, err, panic}
use samara.Controlled.State.{TraceEvent, ScheduledKind, ControlledCore}
use samara.Controlled.Trace.{push_trace, set_fault, fail_with}
use samara.Controlled.Queue.{schedule}
use samara.Controlled.Sources.{and_then}
use samara.Controlled.Invariant.{
  Extends, Precedes, cause_of, IsCaused, Inv, Good, IsCausal-snoc, IsChronological-snoc,
}

module _ {V : Type 0} where
  pub length-push_trace :
      (cause : Option TraceId) (event : TraceEvent) (c : ControlledCore V)
      → length (push_trace cause event c).1.trace ≡ suc (length c.trace)
  unfolding push_trace
  length-push_trace cause event c = length-snoc c.trace _

  pub push_trace-id :
      (cause : Option TraceId) (event : TraceEvent) (c : ControlledCore V)
      → (push_trace cause event c).0 ≡ length c.trace
  unfolding push_trace
  push_trace-id cause event c = refl

  pub push_trace-Inv :
      (cause : Option TraceId) (event : TraceEvent) (c : ControlledCore V)
      → Inv c
      → Precedes cause (length c.trace)
      → Inv (push_trace cause event c).1
  unfolding push_trace
  push_trace-Inv cause event c v p = record {
    causal = IsCausal-snoc 0 c.trace _ (length c.trace) v.causal (omega arith) refl p;
    chronological = IsChronological-snoc 0 c.trace _ c.now v.chronological refl;
    work_caused =
        rw (length-snoc c.trace) (All-mono c.scheduled (λ w h. omega arith) v.work_caused);
    effects_requested =
        rw (length-snoc c.trace)
          (All-mono c.effects (λ e h. (omega (arith, h.0), h.1)) v.effects_requested);
    tickets = v.tickets;
    effect_ids = v.effect_ids;
    correlations = v.correlations;
    generations = v.generations;
    replies_mapped = v.replies_mapped;
  }

  pub schedule-Inv :
      (deadline : Duration) (kind : ScheduledKind V) (c : ControlledCore V)
      → Inv c
      → cause_of kind < length c.trace
      → Inv (schedule deadline kind c)
  unfolding schedule
  schedule-Inv deadline kind c v p = record {
    causal = v.causal;
    chronological = v.chronological;
    work_caused = All-snoc (IsCaused (length c.trace)) c.scheduled _ v.work_caused p;
    effects_requested = v.effects_requested;
    tickets = Rises-snoc (λ w. w.ticket) 0 c.scheduled _ c.next_ticket v.tickets refl;
    effect_ids = v.effect_ids;
    correlations = v.correlations;
    generations = v.generations;
    replies_mapped = v.replies_mapped;
  }

  pub set_fault-Inv :
      (component : ComponentId) (type : Option TypeName) (work : TraceId) (reason : FaultReason)
      (c : ControlledCore V)
      → Inv c
      → work < length c.trace
      → Inv (set_fault component type work reason c).1
  unfolding set_fault
  set_fault-Inv component type work reason c v p =
      option_ind (λ (r : RuntimeError × ControlledCore V). Inv r.1) c.fault
        (λ _.
          let inner = push_trace-Inv (some work) _ c v p in
          record {
            causal = inner.causal;
            chronological = inner.chronological;
            work_caused = inner.work_caused;
            effects_requested = inner.effects_requested;
            tickets = inner.tickets;
            effect_ids = inner.effect_ids;
            correlations = inner.correlations;
            generations = inner.generations;
            replies_mapped = inner.replies_mapped;
          })
        (λ error _. v)

  pub push_trace-Extends :
      (cause : Option TraceId) (event : TraceEvent) (c : ControlledCore V)
      → Extends c (push_trace cause event c).1
  unfolding push_trace
  push_trace-Extends cause event c = (omega (arith, length-push_trace cause event c), refl, refl)

  set_fault-Extends :
      (component : ComponentId) (type : Option TypeName) (work : TraceId) (reason : FaultReason)
      (c : ControlledCore V)
      → Extends c (set_fault component type work reason c).1
  unfolding set_fault
  set_fault-Extends component type work reason c =
      option_ind (λ (r : RuntimeError × ControlledCore V). Extends c r.1) c.fault
        (λ _. push_trace-Extends (some work) _ c) (λ error _. omega arith)

  pub fail_with-Good :
      {A : Type 0} (component : ComponentId) (type : Option TypeName) (work : TraceId)
      (reason : FaultReason) (c : ControlledCore V)
      → Inv c
      → work < length c.trace
      → Good c (fail_with {A = A} component type work reason c)
  fail_with-Good component type work reason c v p = record {
    inv = set_fault-Inv component type work reason c v p;
    grows = set_fault-Extends component type work reason c;
    no_panic = λ e. cc;
  }

  pub ok-Good :
      {A : Type 0} (a : A) (c c' : ControlledCore V) → Inv c' → Extends c c' → Good c (ok a, c')
  ok-Good a c c' v g = record { inv = v; grows = g; no_panic = λ e. cc }

  pub Good-after :
      {A : Type 0} (c c' : ControlledCore V) (r : Result A × ControlledCore V)
      → Extends c c'
      → Good c' r
      → Good c r
  Good-after c c' r g h = record { inv = h.inv; grows = omega arith; no_panic = h.no_panic }

  -- What follows a new trace record works with its identity, on the longer trace.
  pub push_trace-Good :
      {A : Type 0} (cause : Option TraceId) (event : TraceEvent) (c : ControlledCore V)
      (k : TraceId → ControlledCore V → Result A × ControlledCore V)
      → Inv c
      → Precedes cause (length c.trace)
      → ((work : TraceId) (c' : ControlledCore V)
          → Inv c'
          → work < length c'.trace
          → Extends c c'
          → Good c' (k work c'))
      → Good c (k (push_trace cause event c).0 (push_trace cause event c).1)
  push_trace-Good cause event c k v p h =
      let extends = push_trace-Extends cause event c in
      Good-after c _ _ extends (
        h _ _ (push_trace-Inv cause event c v p)
          (omega (arith, length-push_trace cause event c, push_trace-id cause event c)) extends)

  pub and_then-Good :
      {A B : Type 0} (c : ControlledCore V) (r : Result A × ControlledCore V)
      (k : A → ControlledCore V → Result B × ControlledCore V)
      → Good c r
      → ((a : A) (c' : ControlledCore V) → Inv c' → Extends c c' → Good c' (k a c'))
      → Good c (and_then r k)
  and_then-Good c (ok a, c') k g h = Good-after c c' _ g.grows (h a c' g.inv g.grows)
  and_then-Good c (err e, c') k g h = record { inv = g.inv; grows = g.grows; no_panic = λ x. cc }
  and_then-Good c (panic, c') k g h = absurd (g.no_panic refl)
