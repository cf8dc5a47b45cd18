-- ===== src/Protoactor/Activator/Fenced.antt =====
-- adapters/protoactor/activator.go: a fenced activator over any calls.
use stable_placement.Base.{◌≡◌, Bool, true, false, Option, List, [], ◌∷◌, Text}
use stable_placement.Model.{Result, ok, err, Error, PlacementRoute}
use stable_placement.Protoactor.{ClusterIdentity}
use stable_placement.Protoactor.Activator.{
  SerialActivator, Surroundings, activate, fence, remove_active,
}

-- The calls of an activator, with what they find around them.
pub data ActivatorCall (Pid : Type 0) : Type 0 where
  activation : Surroundings Pid → ClusterIdentity → PlacementRoute → ActivatorCall Pid
  fencing : (Pid → Option Error) → ActivatorCall Pid
  removal : ClusterIdentity → Option Pid → ActivatorCall Pid

-- What a call shows: the result of an activation with whether it spawned, or the PIDs that a fence stops.
pub data Shown (Pid : Type 0) : Type 0 where
  activated : Result Pid → Bool → Shown Pid
  stopped : List Pid → Shown Pid
  removed : Shown Pid

-- Nothing was granted, spawned or stopped.
abbrev pub Quiet : {Pid : Type 0} → Shown Pid → Type 0
Quiet (activated (ok pid) spawn) = ⊥
Quiet (activated (err e) spawn) = spawn ≡ false
Quiet (stopped pids) = pids ≡ []
Quiet removed = Unit

-- The activator is fenced and runs nothing.
pub record IsFenced {Pid : Type 0} (a : SerialActivator Pid) : Type 0 where
  pub fenced : a.fenced ≡ true
  pub none_active : a.active ≡ []

module _ {Pid : Type 0} (address : Pid → Text) (equal : Option Pid → Pid → Bool) where
  unfoldable pub activator_step :
      ActivatorCall Pid → SerialActivator Pid → SerialActivator Pid × Shown Pid
  activator_step (activation s identity expected) a =
      let r = activate address a s identity expected in (r.activator, activated r.result r.spawn)
  activator_step (fencing stop) a = let r = fence a stop in (r.0, stopped r.1)
  activator_step (removal identity pid) a = (remove_active equal a identity pid, removed)

  unfoldable pub run_activator :
      List (ActivatorCall Pid) → SerialActivator Pid → SerialActivator Pid × List (Shown Pid)
  run_activator [] a = (a, [])
  run_activator (c ∷ cs) a =
      let here = activator_step c a in
      let rest = run_activator cs here.0 in (rest.0, here.1 ∷ rest.1)
