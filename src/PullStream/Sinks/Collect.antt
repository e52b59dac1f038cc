-- ===== src/PullStream/Sinks/Collect.antt =====
-- `MakeCollect` (dk_pull/pull_stream/sinks/collect.h): a `Reduce` into a vector.
pub mod Gathers
pub mod Later
use dk_pull.Base.{ℕ, List, [], ◌∷◌, ◌++◌, Option}
use dk_pull.Base.Action.{Action, pure, ◌>>=◌, ◌>>◌}
use dk_pull.Base.Ref.{Ref}
use dk_pull.Types.Stream.{SourceCallback, Sink}
use dk_pull.Looper.{Looper}
use dk_pull.PullStream.Sinks.Reduce
use dk_pull.PullStream.Sinks.Reduce.{State, Reduce, Leftover}

module _ {ℓ κ} {W : Type ℓ} {T : Type κ} where
  -- `vector.push_back(std::move(v))`
  abbrev pub push_back : List T → T → Action W (List T)
  push_back vector v = pure (vector ++ v ∷ [])

  -- The reducer moves the vector into its result, and a vector that was moved from is empty. What
  -- `cb` leaves of the vector is up to it.
  abbrev pub reduction :
      Leftover W (List T) → Option (SourceCallback W (List T)) → Reduce W (List T) T
  reduction callback_leaves cb = record {
    reducer = push_back;
    callback = cb;
    reducer_leaves = λ vector v w. [];
    callback_leaves = callback_leaves;
  }

  -- What `MakeCollect` does when it is called, and the sink that it returns.
  abbrev pub create : Ref W (Option (State (List T))) → Action W (Unit {0})
  create self = Reduce.create self []

  unfoldable pub sink :
      Leftover W (List T)
      → Option (SourceCallback W (List T))
      → Ref W (Option (State (List T)))
      → Ref W Looper
      → ℕ
      → Sink W T
  sink callback_leaves cb self looper fuel source =
      Reduce.sink (reduction callback_leaves cb) self looper fuel source
