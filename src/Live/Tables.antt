-- ===== src/Live/Tables.antt =====
-- The tables of LiveCore are filled from their counters: the invariant of the owner task.
use samara.Prelude.{
  ℕ, suc, ◌≤◌, refl, sym, ap, subst, List, [], ◌∷◌, ◌++◌, Rises, Rises-snoc, Rises-remove_first,
  Rises-update_first, arith,
}
use samara.Program.{Program}
use samara.Live.State.{LiveSource, LiveRequest, LiveCore, LiveBindings, new_live_core}
use samara.Live.Tasks.{Live, HostStep, spawn_owned}
use samara.Live.Sources.{next_work, open_sink, run_source, live_source}
use samara.Live.Commands.{
  push_live_request, drop_request, is_live_request, issue_effect, issue_timer,
}
use samara.Live.Ingress.{set_kernel, drop_effect, is_live_effect, drop_last}
use samara.Live.Run.{drop_timer, is_timer, spawn_live}
use samara.Live.Deliver.{put_live_kernel}
use samara.Live.Steps.{KeepsStamp, Step, Run}
use samara.Live.Steps.Sources.{interfere-core}

module _ {V : Type 0} where
  -- Every number of a table was taken from its counter, in order.
  pub record AreNumbered (c : LiveCore V) : Type 0 where
    pub effects : Rises (λ e. e.id) 0 c.effects c.next_effect
    pub requests : Rises (λ r. r.correlation) 0 c.requests c.next_request
    pub timers : Rises (λ t. t.id) 0 c.timers c.next_timer
    pub sources : Rises (λ s. s.stamp.generation) 0 c.sources c.next_generation

  -- The last entry may go.
  Rises-drop_last :
      (lo : ℕ) (xs : List (LiveRequest V)) (hi : ℕ)
      → Rises (λ r. r.correlation) lo xs hi
      → Rises (λ r. r.correlation) lo (drop_last xs) hi
  Rises-drop_last lo [] hi h = h
  Rises-drop_last lo (x ∷ []) hi h = omega arith
  Rises-drop_last lo (x ∷ y ∷ rest) hi h =
      (h.0, Rises-drop_last (suc x.correlation) (y ∷ rest) hi h.1)

  -- A changed entry keeps its generation.
  Rises-at :
      (f : LiveSource V → LiveSource V) (lo : ℕ) (before rest : List (LiveSource V))
      (s : LiveSource V) (hi : ℕ)
      → KeepsStamp f
      → Rises (λ x. x.stamp.generation) lo (before ++ s ∷ rest) hi
      → Rises (λ x. x.stamp.generation) lo (before ++ f s ∷ rest) hi
  Rises-at f lo [] rest s hi k h =
      subst
        (λ stamp.
          (lo ≤ stamp.generation) × Rises (λ x. x.stamp.generation) (suc stamp.generation) rest hi)
        (sym (k s)) h
  Rises-at f lo (b ∷ before) rest s hi k h =
      (h.0, Rises-at f (suc b.stamp.generation) before rest s hi k h.1)

  Rises-hi :
      (lo : ℕ) (xs : List (LiveSource V)) (hi : ℕ)
      → Rises (λ x. x.stamp.generation) lo xs hi
      → Rises (λ x. x.stamp.generation) lo xs (suc hi)
  Rises-hi lo [] hi h = omega arith
  Rises-hi lo (x ∷ xs) hi h = (h.0, Rises-hi (suc x.stamp.generation) xs hi h.1)

  Step-AreNumbered : {l m : Live V} → Step l m → AreNumbered l.core → AreNumbered m.core
  unfolding spawn_owned open_sink run_source live_source issue_effect issue_timer push_live_request
      drop_request drop_effect drop_timer next_work set_kernel put_live_kernel
  Step-AreNumbered {l} (Step.others) v = subst AreNumbered (sym (interfere-core l)) v
  Step-AreNumbered (Step.worked) v = record {
    effects = v.effects;
    requests = v.requests;
    timers = v.timers;
    sources = v.sources;
  }
  Step-AreNumbered (Step.admitted event t) v = v
  Step-AreNumbered (Step.stopped_gate generation task) v = v
  Step-AreNumbered {l} (Step.failed_start component s terminal hd hr) v = record {
    effects = v.effects;
    requests = v.requests;
    timers = v.timers;
    sources = Rises-hi 0 l.core.sources l.core.next_generation v.sources;
  }
  Step-AreNumbered {l} (Step.opened component s mt mn work hook hd hr) v = record {
    effects = v.effects;
    requests = v.requests;
    timers = v.timers;
    sources =
        Rises-snoc (λ x. x.stamp.generation) 0 l.core.sources _ l.core.next_generation v.sources
          refl;
  }
  Step-AreNumbered {l} (Step.updated_source p f k) v = record {
    effects = v.effects;
    requests = v.requests;
    timers = v.timers;
    sources =
        Rises-update_first (λ x. x.stamp.generation) p f 0 l.core.sources l.core.next_generation
          (λ x. ap (λ stamp. stamp.generation) (k x)) v.sources;
  }
  Step-AreNumbered {l} (Step.updated_at f before rest s k e) v = record {
    effects = v.effects;
    requests = v.requests;
    timers = v.timers;
    sources =
        Rises-at f 0 before rest s l.core.next_generation k
          (subst (λ xs. Rises (λ x. x.stamp.generation) 0 xs l.core.next_generation) e v.sources);
  }
  Step-AreNumbered {l} (Step.dropped_source p) v = record {
    effects = v.effects;
    requests = v.requests;
    timers = v.timers;
    sources =
        Rises-remove_first (λ x. x.stamp.generation) p 0 l.core.sources l.core.next_generation
          v.sources;
  }
  Step-AreNumbered (Step.cut_off) v = record {
    effects = v.effects;
    requests = v.requests;
    timers = v.timers;
    sources = v.sources;
  }
  Step-AreNumbered {l} (Step.issued_effect o cmd work) v = record {
    effects = Rises-snoc (λ e. e.id) 0 l.core.effects _ l.core.next_effect v.effects refl;
    requests = v.requests;
    timers = v.timers;
    sources = v.sources;
  }
  Step-AreNumbered {l} (Step.issued_timer o message work) v = record {
    effects = v.effects;
    requests = v.requests;
    timers = Rises-snoc (λ t. t.id) 0 l.core.timers _ l.core.next_timer v.timers refl;
    sources = v.sources;
  }
  Step-AreNumbered {l} (Step.requested reply_type k) v = record {
    effects = v.effects;
    requests =
        Rises-snoc (λ r. r.correlation) 0 l.core.requests _ l.core.next_request v.requests refl;
    timers = v.timers;
    sources = v.sources;
  }
  Step-AreNumbered {l} (Step.dropped_request correlation) v = record {
    effects = v.effects;
    requests =
        Rises-remove_first (λ r. r.correlation) (is_live_request correlation) 0 l.core.requests
          l.core.next_request v.requests;
    timers = v.timers;
    sources = v.sources;
  }
  Step-AreNumbered {l} (Step.popped_request) v = record {
    effects = v.effects;
    requests = Rises-drop_last 0 l.core.requests l.core.next_request v.requests;
    timers = v.timers;
    sources = v.sources;
  }
  Step-AreNumbered {l} (Step.dropped_effect id) v = record {
    effects =
        Rises-remove_first (λ e. e.id) (is_live_effect id) 0 l.core.effects l.core.next_effect
          v.effects;
    requests = v.requests;
    timers = v.timers;
    sources = v.sources;
  }
  Step-AreNumbered {l} (Step.dropped_timer id) v = record {
    effects = v.effects;
    requests = v.requests;
    timers =
        Rises-remove_first (λ t. t.id) (is_timer id) 0 l.core.timers l.core.next_timer v.timers;
    sources = v.sources;
  }
  Step-AreNumbered (Step.started index k) v = record {
    effects = v.effects;
    requests = v.requests;
    timers = v.timers;
    sources = v.sources;
  }
  Step-AreNumbered (Step.committed id mt k) v = record {
    effects = v.effects;
    requests = v.requests;
    timers = v.timers;
    sources = v.sources;
  }
  Step-AreNumbered (Step.delivered host reply) v = record {
    effects = v.effects;
    requests = v.requests;
    timers = v.timers;
    sources = v.sources;
  }
  Step-AreNumbered (Step.dequeued event rest e) v = v
  Step-AreNumbered (Step.joined exit rest e) v = v

  pub Run-AreNumbered : {l m : Live V} → Run l m → AreNumbered l.core → AreNumbered m.core
  Run-AreNumbered (Run.stay) v = v
  Run-AreNumbered (Run.then_step h s) v = Step-AreNumbered s (Run-AreNumbered h v)

  pub new_live_core-AreNumbered :
      (program : Program V) (bindings : LiveBindings V)
      → AreNumbered (new_live_core program bindings)
  unfolding new_live_core
  new_live_core-AreNumbered program bindings = record {
    effects = omega arith;
    requests = omega arith;
    timers = omega arith;
    sources = omega arith;
  }

  -- Whatever the owner task and the other threads do from the start on, the effects, the outstanding
  -- Requests, the timers and the Sources stand in their tables under different numbers, in the order
  -- in which these were taken from their counters, and below them.
  pub spawn_live-AreNumbered :
      (program : Program V) (bindings : LiveBindings V) (schedule : List (List (HostStep V)))
      (m : Live V)
      → Run (spawn_live program bindings schedule) m
      → AreNumbered m.core
  unfolding spawn_live
  spawn_live-AreNumbered program bindings schedule m h =
      Run-AreNumbered h (new_live_core-AreNumbered program bindings)
