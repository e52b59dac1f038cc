-- ===== src/Common/Finally.antt =====
-- `Finally` (dk_pull/common/finally.h and finally.cc): an action that the destructor runs.
use dk_pull.Base.{Option, none, some}
use dk_pull.Base.Action.{Action, Result, ok, throw, fatal, out_of_fuel, skip}

-- The member: a function that may be empty.
pub record Finally {ℓ} (W : Type ℓ) : Type ℓ where
  pub action : Option (Action W (Unit {0}))

module _ {ℓ} {W : Type ℓ} where
  -- The constructor.
  abbrev pub create : Option (Action W (Unit {0})) → Finally W
  create fn = record { action = fn }

  -- The two `catch` clauses, which log fatally.
  abbrev pub caught : Result (Unit {0}) × W → Result (Unit {0}) × W
  caught (ok u, w) = (ok u, w)
  caught (throw e, w) = (fatal, w)
  caught (fatal, w) = (fatal, w)
  caught (out_of_fuel, w) = (out_of_fuel, w)

  abbrev run_action : Option (Action W (Unit {0})) → Action W (Unit {0})
  run_action none w = skip w
  run_action (some action) w = caught (action w)

  -- `Finally::~Finally`
  unfoldable pub destroy : Finally W → Action W (Unit {0})
  destroy self = run_action self.action
