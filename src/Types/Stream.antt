-- ===== src/Types/Stream.antt =====
-- `Source`, `Sink`, `Through`, `Duplex` and their base classes (dk_pull/types). A
-- `std::function` is a function into `Action`; an argument that the code compares with `nullptr`
-- is an `Option`.
use dk_pull.Base.{Option, none, some}
use dk_pull.Base.Action.{Action, skip, raise, bad_function_call}
use dk_pull.Types.EndOrError.{Done, Abort}

module _ {ℓ} (W : Type ℓ) where
  abbrev pub SourceCallback {κ} : Type κ → Type (ℓ ⊔ κ)
  SourceCallback T = Done → T → Action W (Unit {0})

  abbrev pub Source {κ} : Type κ → Type (ℓ ⊔ κ)
  Source T = Abort → Option (SourceCallback T) → Action W (Unit {0})

  abbrev pub Sink {κ} : Type κ → Type (ℓ ⊔ κ)
  Sink T = Source T → Action W (Unit {0})

  abbrev pub Through {κ λ'} : Type κ → Type λ' → Type (ℓ ⊔ κ ⊔ λ')
  Through In Out = Source In → Source Out

  -- The base classes: what has a source, a sink or a through.
  pub record SourceContext {κ} (T : Type κ) : Type (ℓ ⊔ κ) where
    pub source : Source T

  pub record SinkContext {κ} (T : Type κ) : Type (ℓ ⊔ κ) where
    pub sink : Sink T

  pub record ThroughContext {κ λ'} (In : Type κ) (Out : Type λ') : Type (ℓ ⊔ κ ⊔ λ') where
    pub through : Through In Out

  -- `Duplex` derives from two of them.
  pub record Duplex {κ λ'} (In : Type κ) (Out : Type λ') : Type (ℓ ⊔ κ ⊔ λ') where
    pub source_side : SourceContext In
    pub sink_side : SinkContext Out

module _ {ℓ κ} {W : Type ℓ} {T : Type κ} where
  -- The empty callback that a source puts in the place of `nullptr`.
  abbrev pub or_noop : Option (SourceCallback W T) → SourceCallback W T
  or_noop none done v = skip
  or_noop (some cb) done v = cb done v

  -- A call of a callback that may be empty.
  abbrev pub invoke : Option (SourceCallback W T) → SourceCallback W T
  invoke none done v = raise bad_function_call
  invoke (some cb) done v = cb done v
