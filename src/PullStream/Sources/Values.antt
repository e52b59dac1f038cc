-- ===== src/PullStream/Sources/Values.antt =====
-- `Values` (dk_pull/pull_stream/sources/values.h).
use dk_pull.Base.{List, [], ◌∷◌, if◌then◌else◌}
use dk_pull.Base.Action.{Action, ◌>>=◌, ◌>>◌}
use dk_pull.Base.Ref.{Ref, read, write}
use dk_pull.Types.EndOrError.{ended, going, to_bool}
use dk_pull.Types.Stream.{Source, SourceCallback, SourceContext, or_noop}

pub record Values {ℓ} (T : Type ℓ) : Type ℓ where
  pub values : List T

module _ {ℓ κ} {W : Type ℓ} {T : Type κ} where
  -- `Values::Create` and the constructor: the vector's elements, in its order.
  abbrev pub create : Ref W (Values T) → List T → Action W (Unit {0})
  create self values = write self (record { values = values })

  -- The front is moved out and popped before the callback runs.
  abbrev next_value : Ref W (Values T) → T → List T → SourceCallback W T → Action W (Unit {0})
  next_value self default [] cb = cb ended default
  next_value self default (t ∷ rest) cb = do write self (record { values = rest }); cb going t

  -- `Values::Source`
  unfoldable pub source : Ref W (Values T) → T → Source W T
  source self default abort cb =
      if to_bool abort
      then or_noop cb abort default
      else (do s ← read self; next_value self default s.values (or_noop cb))

  -- `Values` as what has a source.
  abbrev pub context : Ref W (Values T) → T → SourceContext W T
  context self default = record { source = source self default }
