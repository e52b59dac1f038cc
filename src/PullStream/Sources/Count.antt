-- ===== src/PullStream/Sources/Count.antt =====
-- `Count` (dk_pull/pull_stream/sources/count.h and count.cc). Both members are `uint64_t`.
use dk_pull.Base.{ℕ, ltb, if◌then◌else◌, next_u64}
use dk_pull.Base.Action.{Action, ◌>>=◌, ◌>>◌}
use dk_pull.Base.Ref.{Ref, read, write}
use dk_pull.Types.EndOrError.{ended, going, to_bool}
use dk_pull.Types.Stream.{Source, or_noop}

pub record Count : Type 0 where
  pub i : ℕ
  pub maximum : ℕ

module _ {ℓ} {W : Type ℓ} where
  -- `Count::Create` and the constructor.
  abbrev pub create : Ref W Count → ℕ → Action W (Unit {0})
  create self maximum = write self (record { i = 0; maximum = maximum })

  -- `Count::Source`. The callback is never empty once it has been replaced, so the second half of
  -- the test `abort && (cb != nullptr)` always holds.
  unfoldable pub source : Ref W Count → Source W ℕ
  source self abort cb = if to_bool abort then or_noop cb abort 0 else (do
    s ← read self
    if ltb s.maximum s.i
        then or_noop cb ended 0
        else (do write self (record s { i = next_u64 s.i }); or_noop cb going s.i))
