-- ===== src/PullStream/Sinks/Reduce/Later.antt =====
-- A reduction (dk_pull/pull_stream/sinks/reduce.h) over a source that may answer later.
use mathlib.Core.List.{foldl}
use dk_pull.Base.{ℕ, suc, ◌≤◌, ◌<◌, ◌≡◌, List, length, Option, some, false}
use dk_pull.Base.Action.{Action, ok, ◌>>◌}
use dk_pull.Base.Ref.{Ref, Apart}
use dk_pull.Types.EndOrError.{Done}
use dk_pull.Types.Stream.{Source, SourceCallback}
use dk_pull.Looper.{Looper, idle}
use dk_pull.Looper.Deferred.{resume}
use dk_pull.PullStream.Deferring.{Deferring, Spares}
use dk_pull.PullStream.Sinks.Drain
use dk_pull.PullStream.Sinks.Drain.{Drain}
use dk_pull.PullStream.Sinks.Drain.Later.{Leaving, Watches, delivery, sink_later}
use dk_pull.PullStream.Sinks.Reduce.{State, Reduce, create, sink}
use dk_pull.PullStream.Sinks.Reduce.Steps.{drain, Reduces, back, Folded, Told, visit, tell}

module _ {ℓ κ τ μ ν} {W : Type ℓ} {A : Type κ} {T : Type τ} {source : Source W T}
    {deliver : SourceCallback W T → Action W (Unit {0})} {Left Waits : List T → W → Type μ}
    {Closed : W → Type μ} {e : Done} {looper : Ref W Looper} {self : Ref W (Option (State A))}
    (c : Deferring source deliver Left Waits Closed (Leaving looper self) e)
    (looper_spared : Spares looper Left Waits Closed) (self_spared : Spares self Left Waits Closed)
    (apart : Apart looper self) (r : Reduce W A T) {f : A → T → A} {Reported : A → W → Type ν}
    (h : Reduces r f looper Closed e Reported) (a0 : A) where
  pub reduce-Watches :
      Watches (drain r self) looper self Left Waits Closed e (Folded r f a0) (Told r f Reported a0)
  reduce-Watches = record {
    value = visit r h apart self_spared.left self_spared.closed a0;
    done = tell r h apart self_spared.left self_spared.closed a0;
    apart = apart;
    told_looper = λ ys l w told. h.reported_looper (foldl f a0 ys) l w told;
    spares = looper_spared;
  }

  -- A reduction that is created, used on a source that answers each request at once or later, in
  -- any pattern, and kept, with a reducer that has no effect and a callback that returns and leaves
  -- the looper alone: after the sink has returned and the source has made each of its later calls,
  -- of which there are at most one for each value and one for the end, the callback has been called
  -- with the left fold of all the values and with the end of the stream, and the looper is idle.
  -- More fuel than there are values is enough.
  pub sink_folds_later :
      (all : List T) (fuel : ℕ) (w : W)
      → length all < fuel
      → Left all w
      → (k : ℕ) × (k ≤ suc (length all))
        × (w' : W) × ((do
          create self a0
          sink r self looper fuel source
          resume looper
              (Drain.request (drain r self) source)
              (delivery deliver (drain r self))
              fuel
              k)
              w
            ≡ (ok tt, w'))
        × Reported (foldl f a0 all) w'
        × (looper.get w' ≡ idle)
  unfolding sink
  sink_folds_later all fuel w lt left =
      let w1 = self.set (some (record { has_drain = false; accumulator = a0 })) w in
      let w2 = self.set (back r a0) w1 in
      let (k, few, w', run, told, quiet) =
        sink_later c (drain r self) reduce-Watches all fuel w2 lt (self.get-set (back r a0) w1)
          (self_spared.left all _ w1 (self_spared.left all _ w left)) in
      (k, few, w', rw self.get-set run, told, quiet)
