-- ===== src/Live/Steps/Rules.antt =====
-- How sequences of actions of the owner task compose.
use samara.Errors.{Result, ok, err, panic}
use samara.Live.State.{LiveMessage, LiveEvent}
use samara.Live.Tasks.{Live, interfere}
use samara.Live.Sources.{then_live}
use samara.Live.Commands.{offer}
use samara.Live.Steps.{AgreesOnType, Step, Run, Runs}

module _ {V : Type 0} where
  pub Run-trans : {l m r : Live V} → Run l m → Run m r → Run l r
  Run-trans h (Run.stay) = h
  Run-trans h (Run.then_step k s) = Run.then_step (Run-trans h k) s

  pub one : {l r : Live V} → Step l r → Run l r
  one s = Run.then_step Run.stay s

  pub interfere-Run : {l r : Live V} → Run (interfere l) r → Run l r
  interfere-Run h = Run-trans (one Step.others) h

  pub then_live-Runs :
      {A B : Type 0} (l : Live V) (r : Result A × Live V) (f : A → Live V → Result B × Live V)
      → Runs l r
      → ((a : A) (m : Live V) → Runs m (f a m))
      → Runs l (then_live r f)
  then_live-Runs l (ok a, m) f h k = Run-trans h (k a m)
  then_live-Runs l (err e, m) f h k = h
  then_live-Runs l (panic, m) f h k = h

  pub offer-Run :
      (message : LiveMessage V) (l : Live V) → AgreesOnType message → Run l (offer message l).1
  unfolding offer
  offer-Run message l t = interfere-Run (one (Step.admitted (LiveEvent.message message) t))
