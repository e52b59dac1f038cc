-- ===== src/PullStream/Pipeline/Empty.antt =====
-- A collection of `MakeEmpty` (dk_pull/pull_stream/sources/empty.h) behind a protocol checker.
use dk_pull.Base.{ℕ, ◌<◌, ◌≡◌, refl, List, [], Option, some, arith}
use dk_pull.Base.Action.{ok, ◌>>◌}
use dk_pull.Base.Ref.{Ref, Apart, zoom}
use dk_pull.Types.EndOrError.{ended}
use dk_pull.Types.Stream.{SourceCallback}
use dk_pull.Looper.{Looper}
use dk_pull.PullStream.Conforming.Empty.{Always, empty-Leaves}
use dk_pull.PullStream.Sources.Empty.{make_empty}
use dk_pull.PullStream.Pull.{pull_all}
use dk_pull.PullStream.Sinks.Reduce.{State, Leftover}
use dk_pull.PullStream.Sinks.Collect.{create, sink}
use dk_pull.PullStream.Sinks.Collect.Gathers.{Reports}
use dk_pull.PullStream.ProtocolChecker.{Options, ProtocolChecker, new_checker, terminate}
use dk_pull.PullStream.ProtocolChecker.Wrap.{through}
use dk_pull.PullStream.Pipeline.{pull-terminate}

module _ {ℓ κ ν} {W : Type ℓ} {T : Type κ} {looper : Ref W Looper}
    {self : Ref W (Option (State (List T)))} (checker : Ref W ProtocolChecker)
    (apart : Apart looper self) (looper_checker : Apart looper checker)
    (self_checker : Apart self checker) (callback_leaves : Leftover W (List T))
    (cb : SourceCallback W (List T)) {Reported : List T → W → Type ν}
    (h : Reports cb looper (Always T) ended Reported) (default : T) where
  -- Collecting `MakeEmpty` through a new checker, with any of its options, gives the empty vector
  -- and the end with no error, and `Terminate` returns no errors afterwards. Any fuel but none is
  -- enough. The callback returns and leaves the looper and the checker alone.
  pub pull-empty :
      (options : Options) (fuel : ℕ) (w : W)
      → ((vector : List T) (w w' : W)
          → cb ended vector w ≡ (ok tt, w')
          → checker.get w' ≡ checker.get w)
      → 0 < fuel
      → checker.get w ≡ new_checker options
      → (w' : W) × ((do
        create self
        pull_all
            (make_empty default)
            (through checker)
            (sink callback_leaves (some cb) self looper fuel)
        zoom checker terminate)
            w
          ≡ (ok [], w'))
        × Reported [] w'
  pull-empty options fuel w alone lt new =
      pull-terminate checker (empty-Leaves looper default) (empty-Leaves self default)
        (empty-Leaves checker default) apart looper_checker self_checker callback_leaves cb h
        options [] fuel w alone (omega arith) lt new refl
