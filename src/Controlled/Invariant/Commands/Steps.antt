-- ===== src/Controlled/Invariant/Commands/Steps.antt =====
-- A scheduled Message and a traced arm keep the invariant.
use samara.Prelude.{◌<◌, Option, some, length, arith}
use samara.Values.{TypeName, TraceId, Duration}
use samara.Ids.{ComponentId}
use samara.Errors.{Result, ok}
use samara.Controlled.State.{TraceCommandKind, ScheduledKind, ControlledCore}
use samara.Controlled.Trace.{command_trace}
use samara.Controlled.Queue.{schedule}
use samara.Controlled.Commands.{Origin}
use samara.Controlled.Invariant.{Inv, Good, cause_of}
use samara.Controlled.Invariant.Rules.{ok-Good, push_trace-Good, schedule-Inv}

module _ {V : Type 0} where
  pub schedule-Good :
      (deadline : Duration) (kind : ScheduledKind V) (c : ControlledCore V)
      → Inv c
      → cause_of kind < length c.trace
      → Good c (ok tt, schedule deadline kind c)
  unfolding schedule
  schedule-Good deadline kind c v p =
      ok-Good tt c _ (schedule-Inv deadline kind c v p) (omega arith)

  -- Every arm starts with its own trace record.
  pub traced-Good :
      (o : Origin) (kind : TraceCommandKind) (name : TypeName) (target port : Option ComponentId)
      (c : ControlledCore V) (k : TraceId → ControlledCore V → Result Unit × ControlledCore V)
      → Inv c
      → o.cause < length c.trace
      → ((work : TraceId) (c' : ControlledCore V)
          → Inv c'
          → work < length c'.trace
          → Good c' (k work c'))
      → Good c (
          k
            (command_trace o.cause o.component kind name target port c).0
            (command_trace o.cause o.component kind name target port c).1)
  unfolding command_trace
  traced-Good o kind name target port c k v p h =
      push_trace-Good (some o.cause) _ c k v p (λ work c' v' w g. h work c' v' w)
