-- ===== src/PullStream/Sinks/Collect/Later.antt =====
-- `MakeCollect` (dk_pull/pull_stream/sinks/collect.h) on a source that may answer later.
use dk_pull.Base.{ℕ, suc, ◌≤◌, ◌<◌, ◌≡◌, List, [], length, Option, some}
use dk_pull.Base.Action.{Action, ok, ◌>>◌}
use dk_pull.Base.Ref.{Ref, Apart}
use dk_pull.Types.EndOrError.{Done}
use dk_pull.Types.Stream.{Source, SourceCallback}
use dk_pull.Looper.{Looper, idle}
use dk_pull.Looper.Deferred.{resume}
use dk_pull.PullStream.Deferring.{Deferring, Spares}
use dk_pull.PullStream.Sinks.Drain.{request}
use dk_pull.PullStream.Sinks.Drain.Later.{Leaving, delivery}
use dk_pull.PullStream.Sinks.Reduce.{State, Leftover}
use dk_pull.PullStream.Sinks.Reduce.Steps.{drain}
use dk_pull.PullStream.Sinks.Reduce.Later.{sink_folds_later}
use dk_pull.PullStream.Sinks.Collect.{reduction, create, sink}
use dk_pull.PullStream.Sinks.Collect.Gathers.{Reports, foldl-snoc, collect-Reduces}

-- The later ends of the rounds of a collection.
abbrev pub later {ℓ κ} :
    {W : Type ℓ} {T : Type κ}
    → Source W T
    → (SourceCallback W T → Action W (Unit {0}))
    → Leftover W (List T)
    → SourceCallback W (List T)
    → Ref W (Option (State (List T)))
    → Ref W Looper
    → ℕ
    → ℕ
    → Action W (Unit {0})
later source deliver callback_leaves cb self looper =
    resume looper (request (drain (reduction callback_leaves (some cb)) self) source)
      (delivery deliver (drain (reduction callback_leaves (some cb)) self))

module _ {ℓ κ μ ν} {W : Type ℓ} {T : Type κ} {source : Source W T}
    {deliver : SourceCallback W T → Action W (Unit {0})} {Left Waits : List T → W → Type μ}
    {Closed : W → Type μ} {e : Done} {looper : Ref W Looper}
    {self : Ref W (Option (State (List T)))}
    (c : Deferring source deliver Left Waits Closed (Leaving looper self) e)
    (looper_spared : Spares looper Left Waits Closed) (self_spared : Spares self Left Waits Closed)
    (apart : Apart looper self) (callback_leaves : Leftover W (List T))
    (cb : SourceCallback W (List T)) {Reported : List T → W → Type ν}
    (h : Reports cb looper Closed e Reported) where
  -- A collection that is created, used on a source that answers each request at once or later, in
  -- any pattern, and kept, with a callback that returns and leaves the looper alone: after the sink
  -- has returned and the source has made each of its later calls, of which there are at most one
  -- for each value and one for the end, the callback has been called with all of the source's
  -- values in their order and with the end of the stream, and the looper is idle. More fuel than
  -- there are values is enough.
  pub sink_gathers_later :
      (all : List T) (fuel : ℕ) (w : W)
      → length all < fuel
      → Left all w
      → (k : ℕ) × (k ≤ suc (length all))
        × (w' : W) × ((do
          create self
          sink callback_leaves (some cb) self looper fuel source
          later source deliver callback_leaves cb self looper fuel k)
              w
            ≡ (ok tt, w'))
        × Reported all w'
        × (looper.get w' ≡ idle)
  unfolding sink
  sink_gathers_later all fuel w lt left =
      let (k, few, w', run, told, quiet) =
        sink_folds_later c looper_spared self_spared apart (reduction callback_leaves (some cb))
          (collect-Reduces callback_leaves cb h) [] all fuel w lt left in
      (k, few, w', run, rw (foldl-snoc [] all) at told, quiet)
