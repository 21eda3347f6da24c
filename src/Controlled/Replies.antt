-- ===== src/Controlled/Replies.antt =====
-- The correlation of a reply with its request, in `interpret_command`.
use samara.Prelude.{
  ℕ, ◌≡◌, refl, none, not, ◌==◌, find, if_ind, option_ind, find-remove_first, ◌∙◌, arith,
}
use samara.Values.{TraceId}
use samara.Errors.{FaultReason, RuntimeError, Result, ok, err}
use samara.Command.{ReplyCommand}
use samara.Controlled.State.{ControlledCore}
use samara.Controlled.Trace.{push_trace, set_fault}
use samara.Controlled.Queue.{schedule}
use samara.Controlled.Commands.{
  Origin, is_request, release_reply, deliver_reply, remove_request, emit_reply,
}
use samara.Controlled.Invariant.{Inv}

module _ {V : Type 0} where
  abbrev Replied : ControlledCore V → ℕ → Result Unit × ControlledCore V → Type 0
  Replied c correlation (r, c') =
      r ≡ ok tt → (c'.fault ≡ c.fault) × (find (is_request correlation) c'.requests ≡ none)

  emit_reply-Replied :
      (o : Origin) (cmd : ReplyCommand V) (work : TraceId) (c : ControlledCore V)
      → Inv c
      → Replied c cmd.correlation (emit_reply o cmd work c)
  unfolding emit_reply set_fault deliver_reply remove_request release_reply schedule push_trace
  emit_reply-Replied o cmd work c v =
      option_ind (Replied c cmd.correlation) (find (is_request cmd.correlation) c.requests)
        (λ _ e. cc)
        λ request found.
          if_ind (Replied c cmd.correlation) (not (request.reply_type == cmd.reply_type))
            (λ _ e. cc)
            λ _.
              option_ind (Replied c cmd.correlation) request.mapper (λ _ e. cc)
                λ mapper _.
                  if_ind (Replied c cmd.correlation) (not (request.reply_type == cmd.reply_type))
                    (λ _ e. cc)
                    λ _ _. (
                      refl,
                      find-remove_first (λ r. r.correlation) (is_request cmd.correlation)
                          cmd.correlation 0 c.requests c.next_correlation (λ r h. ground arith)
                          v.correlations,
                    )

  refused :
      (o : Origin) (cmd : ReplyCommand V) (work : TraceId) (c : ControlledCore V)
      → c.fault ≡ none
      → find (is_request cmd.correlation) c.requests ≡ none
      → (emit_reply o cmd work c).0
        ≡ err (RuntimeError.fault o.component none work FaultReason.reply_without_request)
  unfolding emit_reply set_fault
  refused o cmd work c f h =
      let error = RuntimeError.fault o.component none work FaultReason.reply_without_request in
      option_ind (λ (r : Result Unit × ControlledCore V). r.0 ≡ err error)
        (find (is_request cmd.correlation) c.requests)
        (λ _.
          option_ind
            (λ (r : RuntimeError × ControlledCore V). ◌≡◌ {A = Result Unit} (err r.0) (err error))
            c.fault (λ _. refl) (λ other e. cc))
        (λ request e. cc)

  -- A request is answered at most once: on a well-formed core without a fault, after a reply that
  -- was accepted, a second one with the same correlation, from whatever Component, is a fault that says
  -- that no request is outstanding.
  pub emit_reply-once :
      (o o' : Origin) (cmd cmd' : ReplyCommand V) (work work' : TraceId) (c : ControlledCore V)
      → Inv c
      → c.fault ≡ none
      → (emit_reply o cmd work c).0 ≡ ok tt
      → cmd'.correlation ≡ cmd.correlation
      → (emit_reply o' cmd' work' (emit_reply o cmd work c).1).0
        ≡ err (RuntimeError.fault o'.component none work' FaultReason.reply_without_request)
  emit_reply-once o o' cmd cmd' work work' c v f h same =
      let after = emit_reply-Replied o cmd work c v h in
      refused o' cmd' work' (emit_reply o cmd work c).1 (after.0 ∙ f) (rw same after.1)
