-- ===== src/Live/Once.antt =====
-- The obligations of LiveCore are met at most once.
use samara.Prelude.{
  ℕ, ◌≡◌, refl, ◌∙◌, ap, none, Bool, not, ◌==◌, find, remove_first, find-remove_first, if_ind,
  option_ind, arith,
}
use samara.Values.{TraceId, EffectOutcome}
use samara.Errors.{FaultReason, RuntimeError, Result, ok, err}
use samara.Command.{ReplyCommand}
use samara.Controlled.Commands.{Origin}
use samara.Live.State.{LiveEffect, LiveMessage, RequestContinuation, LiveCore}
use samara.Live.Tasks.{Live}
use samara.Live.Sources.{with_core, next_work}
use samara.Live.Commands.{
  offer, boxed, plain_message, is_live_request, drop_request, complete_host, continue_request,
  live_reply,
}
use samara.Live.Ingress.{is_live_effect, drop_effect, map_outcome, process_effect}
use samara.Live.Steps.Sources.{interfere-core}
use samara.Live.Tables.{AreNumbered}

module _ {V : Type 0} where
  offer-core : (message : LiveMessage V) (l : Live V) → (offer message l).1.core ≡ l.core
  unfolding offer
  offer-core message l = interfere-core l

module _ {V : Type 0} (unwinds : V → Bool) where
  abbrev SameEffects : Live V → Result Unit × Live V → Type 0
  SameEffects l r = r.1.core.effects ≡ l.core.effects

  map_outcome-effects :
      (e : LiveEffect V) (outcome : EffectOutcome V) (l : Live V)
      → SameEffects l (map_outcome unwinds e outcome l)
  unfolding map_outcome next_work
  map_outcome-effects e outcome l =
      option_ind (SameEffects l) e.mapper (λ _. refl)
        λ mapper _.
          if_ind (SameEffects l) (unwinds (mapper outcome)) (λ _. refl)
            (λ _.
              ap (λ c. c.effects)
                (offer-core
                  (plain_message e.component e.message_type e.message_type_name
                    (boxed e.message_type (mapper outcome)))
                  (with_core next_work l)))

  process_effect-gone :
      (id : ℕ) (outcome : EffectOutcome V) (l : Live V)
      → AreNumbered l.core
      → find (is_live_effect id) (process_effect unwinds id outcome l).1.core.effects ≡ none
  unfolding process_effect drop_effect
  process_effect-gone id outcome l v =
      option_ind (λ (r : Result Unit × Live V). find (is_live_effect id) r.1.core.effects ≡ none)
        (find (is_live_effect id) l.core.effects) (λ h. h)
        λ e _.
          ap (find (is_live_effect id))
            (map_outcome-effects e outcome (with_core (drop_effect id) l))
          ∙ find-remove_first (λ x. x.id) (is_live_effect id) id 0 l.core.effects l.core.next_effect
              (λ x h. ground arith) v.effects

  process_effect-absent :
      (id : ℕ) (outcome : EffectOutcome V) (l : Live V)
      → find (is_live_effect id) l.core.effects ≡ none
      → process_effect unwinds id outcome l ≡ (ok tt, l)
  unfolding process_effect
  process_effect-absent id outcome l h = rw (h, process_effect) refl

  -- The outcome of an effect reaches its mapper at most once: in a state whose tables are numbered
  -- from their counters, whatever came of the first outcome, a second one for the same effect changes
  -- nothing.
  pub process_effect-once :
      (id : ℕ) (first second : EffectOutcome V) (l : Live V)
      → AreNumbered l.core
      → process_effect unwinds id second (process_effect unwinds id first l).1
        ≡ (ok tt, (process_effect unwinds id first l).1)
  process_effect-once id first second l v =
      process_effect-absent id second (process_effect unwinds id first l).1
        (process_effect-gone id first l v)

  abbrev SameRequests : LiveCore V → Result Unit × Live V → Type 0
  SameRequests c r = r.1.core.requests ≡ c.requests

  continue_request-requests :
      (o : Origin) (cmd : ReplyCommand V) (work : TraceId) (k : RequestContinuation V) (l : Live V)
      → SameRequests l.core (continue_request unwinds o cmd work k l)
  unfolding continue_request complete_host
  continue_request-requests o cmd work (RequestContinuation.component requester mapper mt mn) l =
      if_ind (SameRequests l.core) (unwinds (mapper cmd.reply)) (λ _. refl)
        (λ _.
          ap (λ c. c.requests)
            (offer-core (plain_message requester mt mn (boxed mt (mapper cmd.reply))) l))
  continue_request-requests o cmd work (RequestContinuation.host expected host) l =
      if_ind (SameRequests l.core) (expected == cmd.reply_type) (λ _. refl) (λ _. refl)

  live_reply-gone :
      (o : Origin) (cmd : ReplyCommand V) (work : TraceId) (l : Live V)
      → AreNumbered l.core
      → find (is_live_request cmd.correlation) (live_reply unwinds o cmd work l).1.core.requests
        ≡ none
  unfolding live_reply drop_request
  live_reply-gone o cmd work l v =
      let gone : find (is_live_request cmd.correlation)
            (remove_first (is_live_request cmd.correlation) l.core.requests)
          ≡ none =
        find-remove_first (λ r. r.correlation) (is_live_request cmd.correlation) cmd.correlation 0
          l.core.requests l.core.next_request (λ r h. ground arith) v.requests in
      option_ind
        (λ (r : Result Unit × Live V).
          find (is_live_request cmd.correlation) r.1.core.requests ≡ none)
        (find (is_live_request cmd.correlation) l.core.requests) (λ h. h)
        λ request _.
          if_ind
            (λ (r : Result Unit × Live V).
              find (is_live_request cmd.correlation) r.1.core.requests ≡ none)
            (not (request.reply_type == cmd.reply_type)) (λ _. gone)
            λ _.
              ap (find (is_live_request cmd.correlation)) (
                continue_request-requests o cmd work request.continuation
                  (with_core (drop_request cmd.correlation) l))
              ∙ gone

  live_reply-absent :
      (o : Origin) (cmd : ReplyCommand V) (work : TraceId) (l : Live V)
      → find (is_live_request cmd.correlation) l.core.requests ≡ none
      → live_reply unwinds o cmd work l
        ≡ (err (RuntimeError.fault o.component none work FaultReason.reply_without_request), l)
  unfolding live_reply
  live_reply-absent o cmd work l h = rw (h, live_reply) refl

  -- A Request is answered at most once: in a state whose tables are numbered from their counters,
  -- whatever came of the first Reply, a second one with its correlation, of whichever Component and
  -- type, faults because no Request is outstanding, and changes nothing else.
  pub live_reply-once :
      (o p : Origin) (cmd other : ReplyCommand V) (work later : TraceId) (l : Live V)
      → AreNumbered l.core
      → other.correlation ≡ cmd.correlation
      → live_reply unwinds p other later (live_reply unwinds o cmd work l).1 ≡ (
        err (RuntimeError.fault p.component none later FaultReason.reply_without_request),
        (live_reply unwinds o cmd work l).1,
      )
  live_reply-once o p cmd other work later l v e =
      live_reply-absent p other later (live_reply unwinds o cmd work l).1 (
        ap (λ k. find (is_live_request k) (live_reply unwinds o cmd work l).1.core.requests) e
        ∙ live_reply-gone o cmd work l v)
