-- ===== src/Controlled/Faults.antt =====
-- The fault latch of ControlledCore: `set_fault` and `ensure_not_faulted`.
use samara.Prelude.{◌≡◌, refl, Option, some, Option-cases, inl, inr}
use samara.Values.{TypeName, TraceId}
use samara.Ids.{ComponentId}
use samara.Errors.{FaultReason, err}
use samara.Controlled.State.{ControlledCore}
use samara.Controlled.Trace.{set_fault, ensure_not_faulted}

module _ {V : Type 0} where
  -- The first fault wins: after `set_fault` the core holds the error that it answered, the second of
  -- two faults answers the first one's error and changes nothing, and `ensure_not_faulted` reports it.
  pub set_fault-latches :
      (component component' : ComponentId) (type type' : Option TypeName) (work work' : TraceId)
      (reason reason' : FaultReason) (c : ControlledCore V)
      → ((set_fault component type work reason c).1.fault
          ≡ some (set_fault component type work reason c).0)
        × (set_fault component' type' work' reason' (set_fault component type work reason c).1
            ≡ set_fault component type work reason c)
        × (ensure_not_faulted (set_fault component type work reason c).1
            ≡ err (set_fault component type work reason c).0)
  unfolding set_fault ensure_not_faulted
  set_fault-latches component component' type type' work work' reason reason' c =
      elim (Option-cases c.fault) [
        | inl h ↦ rw h (refl, refl, refl)
        | inr (error, h) ↦ rw h (refl, refl, refl)
      ]
