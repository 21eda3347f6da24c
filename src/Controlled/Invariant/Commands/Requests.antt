-- ===== src/Controlled/Invariant/Commands/Requests.antt =====
-- The arms for requests and replies keep the invariant, and no reply meets a request without mapper.
use samara.Prelude.{
  both, find_test, ℕ, ◌≡◌, ◌<◌, ◌==◌, refl, true, false, not, none, some, length, if_ind,
  option_ind, arith, All-snoc, Rises-snoc, Rises-remove_first, All-remove_first, All-find, find,
  is_some,
}
use samara.Values.{TraceId}
use samara.Command.{RequestCommand, ReplyCommand}
use samara.Program.{is_binding}
use samara.Controlled.State.{TraceCommandKind, OutstandingRequest, ControlledCore}
use samara.Controlled.Commands.{
  Origin, push_request, binding_at, is_request, interpret_request, deliver_reply, remove_request,
  interpret_reply, emit_request, emit_reply, release_reply,
}
use samara.Controlled.Invariant.{Inv, Good}
use samara.Controlled.Invariant.Rules.{fail_with-Good, Good-after, push_trace-Good}
use samara.Controlled.Invariant.Commands.Steps.{schedule-Good, traced-Good}

module _ {V : Type 0} where
  push_request-Inv :
      (o : Origin) (cmd : RequestCommand V) (c : ControlledCore V)
      → Inv c
      → Inv (push_request o cmd c)
  unfolding push_request
  push_request-Inv o cmd c v = record {
    causal = v.causal;
    chronological = v.chronological;
    work_caused = v.work_caused;
    effects_requested = v.effects_requested;
    tickets = v.tickets;
    effect_ids = v.effect_ids;
    correlations =
        Rises-snoc (λ r. r.correlation) 0 c.requests _ c.next_correlation v.correlations refl;
    generations = v.generations;
    replies_mapped = All-snoc (λ r. is_some r.mapper ≡ true) c.requests _ v.replies_mapped refl;
  }

  remove_request-Inv :
      (correlation : ℕ) (c : ControlledCore V) → Inv c → Inv (remove_request correlation c)
  unfolding remove_request
  remove_request-Inv correlation c v = record {
    causal = v.causal;
    chronological = v.chronological;
    work_caused = v.work_caused;
    effects_requested = v.effects_requested;
    tickets = v.tickets;
    effect_ids = v.effect_ids;
    correlations =
        Rises-remove_first (λ r. r.correlation) (is_request correlation) 0 c.requests
          c.next_correlation v.correlations;
    generations = v.generations;
    replies_mapped =
        All-remove_first (λ r. is_some r.mapper ≡ true) (is_request correlation) c.requests
          v.replies_mapped;
  }

  emit_request-Good :
      (o : Origin) (cmd : RequestCommand V) (work : TraceId) (c1 : ControlledCore V)
      → Inv c1
      → work < length c1.trace
      → Good c1 (emit_request o cmd work c1)
  unfolding emit_request
  emit_request-Good o cmd work c1 v1 w =
      if_ind (Good c1) (not (cmd.port_program == c1.program.program))
        (λ _. fail_with-Good _ _ _ _ c1 v1 w)
        λ _.
          option_ind (Good c1) (binding_at cmd.protocol_type cmd.port c1)
            (λ _. fail_with-Good _ _ _ _ c1 v1 w)
            λ b found.
              let test =
                find_test (is_binding cmd.protocol_type cmd.port) c1.program.bindings found in
              let agrees : (b.protocol_type == cmd.protocol_type) ≡ true = (both _ _ test).0 in
              rw agrees (
                Good-after c1 (push_request o cmd c1) _ (omega arith)
                  (schedule-Good _ _ _ (push_request-Inv o cmd c1 v1) w))

  pub interpret_request-Good :
      (o : Origin) (cmd : RequestCommand V) (c : ControlledCore V)
      → Inv c
      → o.cause < length c.trace
      → Good c (interpret_request o cmd c)
  unfolding interpret_request
  interpret_request-Good o cmd c v p =
      traced-Good o TraceCommandKind.request cmd.request_type_name none (some cmd.port) c
        (emit_request o cmd) v p (emit_request-Good o cmd)

  deliver_reply-Good :
      (request : OutstandingRequest V) (cmd : ReplyCommand V) (work : TraceId)
      (c : ControlledCore V)
      → Inv c
      → work < length c.trace
      → is_some request.mapper ≡ true
      → not (request.reply_type == cmd.reply_type) ≡ false
      → Good c (deliver_reply request cmd work c)
  unfolding deliver_reply
  deliver_reply-Good request cmd work c v p m t =
      push_trace-Good (some work) _ c (release_reply request cmd) v p λ outcome c1 v1 w g.
        option_ind (Good c1) request.mapper (λ e. cc) λ mapper e. rw t (schedule-Good _ _ c1 v1 w)

  emit_reply-Good :
      (o : Origin) (cmd : ReplyCommand V) (work : TraceId) (c1 : ControlledCore V)
      → Inv c1
      → work < length c1.trace
      → Good c1 (emit_reply o cmd work c1)
  unfolding emit_reply
  emit_reply-Good o cmd work c1 v1 w =
      option_ind (Good c1) (find (is_request cmd.correlation) c1.requests)
        (λ _. fail_with-Good _ _ _ _ c1 v1 w)
        λ request e.
          let v2 = remove_request-Inv cmd.correlation c1 v1 in
          Good-after c1 (remove_request cmd.correlation c1) _ (omega arith) (
            if_ind (Good (remove_request cmd.correlation c1))
              (not (request.reply_type == cmd.reply_type)) (λ _. fail_with-Good _ _ _ _ _ v2 w)
              λ t.
                deliver_reply-Good request cmd work _ v2 w
                  (All-find (λ r. is_some r.mapper ≡ true) (is_request cmd.correlation) c1.requests
                    v1.replies_mapped e)
                  t)

  pub interpret_reply-Good :
      (o : Origin) (cmd : ReplyCommand V) (c : ControlledCore V)
      → Inv c
      → o.cause < length c.trace
      → Good c (interpret_reply o cmd c)
  unfolding interpret_reply
  interpret_reply-Good o cmd c v p =
      traced-Good o TraceCommandKind.reply cmd.reply_type_name none none c (emit_reply o cmd) v p
        (emit_reply-Good o cmd)
