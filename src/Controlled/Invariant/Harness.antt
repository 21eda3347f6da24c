-- ===== src/Controlled/Invariant/Harness.antt =====
-- The harness operations keep the invariant, and none of them panics.
use samara.Prelude.{
  All-find, both, true, ℕ, ◌≡◌, ◌<◌, refl, not, ◌||◌, none, some, find, filter, only, update_first,
  length, if_ind, option_ind, arith, All-remove_first, All-update_first, Rises-remove_first,
  Rises-update_first, is_none, find_test, ◌==◌,
}
use samara.Values.{TypeId, TraceId, CapabilityToken, EffectOutcome, SourceEvent, ErasedSourceEvent}
use samara.Ids.{SubscriptionId}
use samara.Errors.{Result, ok, err, RuntimeError}
use samara.Program.{ComponentRef, source_requirement}
use samara.Controlled.State.{
  TraceEvent, ScheduledKind, ActiveSource, PendingEffectEntry, ControlledCore,
}
use samara.Controlled.Queue.{schedule}
use samara.Controlled.Commands.{has_target}
use samara.Controlled.Sources.{source_at}
use samara.Controlled.Harness.{
  PendingEffect, input_message, enter, input_event, send, enqueue_erased_source_event, is_stream,
  emit_stream, close_stream, emit_source, is_unclaimed, claimed, next_effect, is_owned,
  schedule_outcome, remove_effect, complete,
}
use samara.Controlled.Invariant.{held_type, IsRequested, cause_of, Inv, Good}
use samara.Controlled.Invariant.Rules.{ok-Good, Good-after, push_trace-Good}
use samara.Controlled.Invariant.Commands.{schedule-Good}

module _ {V : Type 0} where
  err-Good :
      {A : Type 0} (error : RuntimeError) (c : ControlledCore V)
      → Inv c
      → Good {A = A} c (err error, c)
  err-Good error c v = record { inv = v; grows = omega arith; no_panic = λ e. cc }

  -- The rule for a body under `unless_faulted`.
  unfaulted-Good :
      {A : Type 0} (c : ControlledCore V) {r : Result A × ControlledCore V}
      → Inv c
      → Good c r
      → Good {A = A} c (elim (c.fault) [ some error ↦ (err error, c) | none ↦ r ])
  unfaulted-Good c v g = option_ind (Good c) c.fault (λ _. g) (λ error _. err-Good error c v)

  enter-Good :
      (event : TraceEvent) (kind : TraceId → ScheduledKind V) (c : ControlledCore V)
      → ((work : TraceId) → cause_of (kind work) ≡ work)
      → Inv c
      → Good c (enter event kind c)
  enter-Good event kind c caused v =
      push_trace-Good none event c (λ work c'. (ok tt, schedule c'.now (kind work) c')) v tt
        λ work c' v' w g. schedule-Good c'.now (kind work) c' v' (omega (arith, caused work))

  pub send-Good :
      (target : ComponentRef) (message : V) (c : ControlledCore V)
      → Inv c
      → Good c (send target message c)
  unfolding send
  send-Good target message c v = unfaulted-Good c v (
      if_ind (Good c)
        (not (target.program == c.program.program)
          || not (has_target target.id target.message_type c))
        (λ _. err-Good _ c v) λ _. enter-Good _ (input_message target message) c (λ work. refl) v)

  enqueue-Good :
      (s : ActiveSource V) (type : TypeId) (event : ErasedSourceEvent V) (c : ControlledCore V)
      → Inv c
      → Good c (enqueue_erased_source_event s type event c)
  unfolding enqueue_erased_source_event
  enqueue-Good s type event c v =
      if_ind (Good c) (not s.running || not (s.plan.terminal_type == type)) (λ _. err-Good _ c v)
        λ _. enter-Good _ (input_event s type event) c (λ work. refl) v

  pub emit_stream-Good :
      (token : CapabilityToken) (type : TypeId) (item : V) (c : ControlledCore V)
      → Inv c
      → Good c (emit_stream token type item c)
  unfolding emit_stream
  emit_stream-Good token type item c v = unfaulted-Good c v (
      option_ind (Good c) (source_requirement c.program token) (λ _. err-Good _ c v)
        λ requirement _.
          if_ind (Good c) (not (requirement.terminal_type == type)) (λ _. err-Good _ c v)
            λ _.
              option_ind (Good c) (only (filter (is_stream type token) c.sources))
                (λ _. err-Good _ c v) λ s _. enqueue-Good s type _ c v)

  pub close_stream-Good :
      (token : CapabilityToken) (c : ControlledCore V) → Inv c → Good c (close_stream token c)
  unfolding close_stream
  close_stream-Good token c v = unfaulted-Good c v (
      option_ind (Good c) (source_requirement c.program token) (λ _. err-Good _ c v)
        λ requirement _.
          if_ind (Good c) (is_none requirement.terminal_stream_item_type) (λ _. err-Good _ c v)
            λ _.
              option_ind (Good c)
                (only (filter (is_stream requirement.terminal_type token) c.sources))
                (λ _. err-Good _ c v) λ s _. enqueue-Good s _ _ c v)

  pub emit_source-Good :
      (target : ComponentRef) (id : SubscriptionId) (type : TypeId) (event : SourceEvent V)
      (c : ControlledCore V)
      → Inv c
      → Good c (emit_source target id type event c)
  unfolding emit_source
  emit_source-Good target id type event c v = unfaulted-Good c v (
      if_ind (Good c) (not (target.program == c.program.program)) (λ _. err-Good _ c v)
        λ _.
          option_ind (Good c) (source_at target.id id c) (λ _. err-Good _ c v)
            λ s _. enqueue-Good s type _ c v)

  claim-Inv :
      (type : TypeId) (c : ControlledCore V)
      → Inv c
      → Inv (record c { effects = update_first (is_unclaimed type) claimed c.effects })
  claim-Inv type c v = record {
    causal = v.causal;
    chronological = v.chronological;
    work_caused = v.work_caused;
    effects_requested =
        All-update_first (IsRequested (length c.trace)) (is_unclaimed type) claimed c.effects
          (λ e h. (h.0, tt)) v.effects_requested;
    tickets = v.tickets;
    effect_ids =
        Rises-update_first (λ e. e.id) (is_unclaimed type) claimed 0 c.effects c.next_effect
          (λ e. refl) v.effect_ids;
    correlations = v.correlations;
    generations = v.generations;
    replies_mapped = v.replies_mapped;
  }

  pub next_effect-Good :
      (type : TypeId) (c : ControlledCore V) → Inv c → Good c (next_effect type c)
  unfolding next_effect
  next_effect-Good type c v = unfaulted-Good c v (
      option_ind (Good c) (find (is_unclaimed type) c.effects) (λ _. err-Good _ c v)
        λ e found.
          let test = find_test (is_unclaimed type) c.effects found in
          option_ind (Good c) e.descriptor (λ absent. ground arith)
            λ intent held.
              let own =
                (All-find (IsRequested (length c.trace)) (is_unclaimed type) c.effects
                  v.effects_requested found).1 in
              let agrees =
                held_type e.descriptor_type type e.descriptor intent own held (both _ _ test).0 in
              rw agrees (ok-Good _ c _ (claim-Inv type c v) (omega arith)))

  remove_effect-Inv :
      (id : ℕ) (type : TypeId) (c : ControlledCore V) → Inv c → Inv (remove_effect id type c)
  unfolding remove_effect
  remove_effect-Inv id type c v = record {
    causal = v.causal;
    chronological = v.chronological;
    work_caused = v.work_caused;
    effects_requested =
        All-remove_first (IsRequested (length c.trace)) (is_owned id type) c.effects
          v.effects_requested;
    tickets = v.tickets;
    effect_ids =
        Rises-remove_first (λ e. e.id) (is_owned id type) 0 c.effects c.next_effect v.effect_ids;
    correlations = v.correlations;
    generations = v.generations;
    replies_mapped = v.replies_mapped;
  }

  schedule_outcome-Good :
      (e : PendingEffectEntry V) (type : TypeId) (outcome : EffectOutcome V) (cause : TraceId)
      (c : ControlledCore V)
      → Inv c
      → cause < length c.trace
      → (e.descriptor_type == type) ≡ true
      → Good c (schedule_outcome e type outcome cause c)
  unfolding schedule_outcome
  schedule_outcome-Good e type outcome cause c v w t =
      option_ind (Good c) e.mapper (λ _. ok-Good tt c c v (omega arith))
        λ mapper _. rw t (schedule-Good _ _ c v w)

  pub complete-Good :
      (type : TypeId) (pending : PendingEffect V) (outcome : EffectOutcome V) (c : ControlledCore V)
      → Inv c
      → Good c (complete type pending outcome c)
  unfolding complete
  complete-Good type pending outcome c v = unfaulted-Good c v (
      if_ind (Good c) (not (pending.program == c.program.program)) (λ _. err-Good _ c v)
        λ _.
          option_ind (Good c) (find (is_owned pending.id type) c.effects) (λ _. err-Good _ c v)
            λ e found. Good-after c (remove_effect pending.id type c) _ (omega arith) (
              push_trace-Good none _ (remove_effect pending.id type c)
                (schedule_outcome e type outcome) (remove_effect-Inv pending.id type c v) tt
                λ work c1 v1 w g.
                  schedule_outcome-Good e type outcome work c1 v1 w
                    (both _ _ (find_test (is_owned pending.id type) c.effects found)).1))
