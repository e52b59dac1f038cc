-- ===== src/PullStream/Pipeline.antt =====
-- Pipelines that `Pull` (dk_pull/pull_stream/pull.h) puts together: a source, perhaps the
-- protocol checker's `Through` around it, and a sink.
pub mod Empty
pub mod Later
pub mod Throws
pub mod Aborts
use dk_pull.Base.{
  ℕ, ◌+◌, ◌<◌, ◌≡◌, refl, ◌∙◌, ap, Bool, true, false, not, ◌&&◌, List, [], length, Option, some,
  arith, u64_mod,
}
use dk_pull.Base.Action.{ok, ◌>>◌}
use dk_pull.Base.Ref.{Ref, Apart, zoom}
use dk_pull.Types.EndOrError.{Done, ended, to_bool}
use dk_pull.Types.Stream.{Source, SourceCallback}
use dk_pull.Looper.{Looper, idle}
use dk_pull.PullStream.Conforming.{Conforming, Leaves}
use dk_pull.PullStream.Conforming.Values.{IsEmpty, values-Leaves}
use dk_pull.PullStream.Conforming.Count.{IsPast, counting, length-counting, count-Leaves}
use dk_pull.PullStream.Sources.Values
use dk_pull.PullStream.Sources.Values.{Values}
use dk_pull.PullStream.Sources.Count
use dk_pull.PullStream.Sources.Count.{Count}
use dk_pull.PullStream.Pull.{pull_all, pull_source, pull_sink}
use dk_pull.PullStream.Sinks.Reduce.{State, Leftover}
use dk_pull.PullStream.Sinks.Collect.{create, sink}
use dk_pull.PullStream.Sinks.Collect.Gathers.{Reports, sink_gathers}
use dk_pull.PullStream.ProtocolChecker.{Options, ProtocolChecker, new_checker, terminate}
use dk_pull.PullStream.Sinks.AbortNow.{make_abort_now_sink}
use dk_pull.PullStream.ProtocolChecker.InOrder.{
  asked, answered, check_callback-open, get_or-append_self,
}
use dk_pull.PullStream.ProtocolChecker.Wrap.{through}
use dk_pull.PullStream.ProtocolChecker.Terminate.{terminate_complete}
use dk_pull.PullStream.ProtocolChecker.Transparent.{
  IsOpen, IsDone, CheckedEnd, through-open, through-Leaves,
}

and_not-true : (p b q : Bool) → b ≡ true → (p && not b && q) ≡ false
and_not-true true true q e = refl
and_not-true false true q e = refl
and_not-true p false q e = absurd (cc)

-- A checker behind which the stream has ended has nothing to report.
pub terminate-IsDone :
    (e : Done) (s : ProtocolChecker) → to_bool e ≡ true → IsDone e s → terminate s ≡ (ok [], s)
terminate-IsDone e s over d =
    terminate_complete s d.in_order d.room (
      and_not-true s.enforce_stream_termination (to_bool s.done) (not (to_bool s.aborted))
        (ap (λ d'. to_bool d') d.is_done ∙ over))
    ∙ rw (d.clean) refl

pub new_checker-IsOpen :
    (options : Options) (n : ℕ) → n + 2 < u64_mod → IsOpen n (new_checker options)
unfolding new_checker
new_checker-IsOpen options n room = record {
  not_aborted = refl;
  not_done = refl;
  in_order = refl;
  room = omega arith;
  clean = refl;
}

module _ {ℓ κ μ ν} {W : Type ℓ} {T : Type κ} {source : Source W T} {Left : List T → W → Type μ}
    {Closed : W → Type μ} {e : Done} {c : Conforming source Left Closed e} {looper : Ref W Looper}
    {self : Ref W (Option (State (List T)))} (checker : Ref W ProtocolChecker)
    (looper_leaves : Leaves looper c) (self_leaves : Leaves self c)
    (checker_leaves : Leaves checker c) (apart : Apart looper self)
    (looper_checker : Apart looper checker) (self_checker : Apart self checker)
    (callback_leaves : Leftover W (List T)) (cb : SourceCallback W (List T))
    {Reported : List T → W → Type ν} (h : Reports cb looper Closed e Reported) where
  -- What the callback leaves, and the checker behind it.
  abbrev Passed : List T → W → Type ν
  Passed vector w = Reported vector w × IsDone e (checker.get w)

  -- The callback leaves the checker alone.
  abbrev pub LeavesChecker : Type (ℓ ⊔ κ)
  LeavesChecker =
      (vector : List T) (w w' : W) → cb e vector w ≡ (ok tt, w') → checker.get w' ≡ checker.get w

  pipeline-Reports : LeavesChecker → Reports cb looper (CheckedEnd checker checker_leaves) e Passed
  pipeline-Reports alone = record {
    report = λ vector w (closed, done).
        let (w', run, told, same) = h.report vector w closed in
        (w', run, (told, rw (alone vector w w' run) done), same);
    reported_looper = λ vector l w (told, done).
        (h.reported_looper vector l w told, rw (looper_checker.get-set_right l w) done);
  }

  -- Through a new checker, with any of its options, a collection of a conforming source with fewer
  -- than 2^64 - 2 values still gets all of the values in order, and the end. The source leaves the
  -- looper, the reduction and the checker alone; the callback returns and leaves the looper and the
  -- checker alone. Then nothing throws, and `Terminate` returns no errors afterwards. More fuel than
  -- there are values is enough.
  pub pull-terminate :
      (options : Options) (all : List T) (fuel : ℕ) (w : W)
      → LeavesChecker
      → length all + 2 < u64_mod
      → length all < fuel
      → checker.get w ≡ new_checker options
      → Left all w
      → (w' : W) × ((do
        create self
        pull_all source (through checker) (sink callback_leaves (some cb) self looper fuel)
        zoom checker terminate)
            w
          ≡ (ok [], w'))
        × Reported all w'
  unfolding pull_all pull_source pull_sink
  pull-terminate options all fuel w alone room lt new left =
      let leaves = checker_leaves in
      let open_ = new_checker-IsOpen options (length all) room in
      let (w', run, (told, done), quiet) =
        sink_gathers (through-Leaves checker leaves looper looper_leaves looper_checker)
          (through-Leaves checker leaves self self_leaves self_checker) apart callback_leaves cb
          (pipeline-Reports alone) all fuel w lt (left, rw new open_) in
      (w', rw (run, terminate-IsDone e (checker.get w') c.ends done, checker.set-get) refl, told)

module _ {ℓ ν} {W : Type ℓ} {looper : Ref W Looper} {self : Ref W (Option (State (List ℕ)))}
    (apart : Apart looper self) (callback_leaves : Leftover W (List ℕ))
    (cb : SourceCallback W (List ℕ)) {Reported : List ℕ → W → Type ν} where
  -- With a callback that returns and leaves the looper alone, collecting `Count` up to a maximum gives the vector of the numbers from 0 to the maximum, both
  -- included, and the end with no error; the looper is idle afterwards. The maximum is not the
  -- largest `uint64_t`. More fuel than there are numbers is enough.
  pub pull-count :
      (count : Ref W Count) (looper_count : Apart looper count) (self_count : Apart self count)
      (h : Reports cb looper (IsPast count) ended Reported) (maximum fuel : ℕ) (w : W)
      → maximum + 1 < u64_mod
      → maximum + 1 < fuel
      → (w' : W) × ((do
        Count.create count maximum
        create self
        pull_sink (Count.source count) (sink callback_leaves (some cb) self looper fuel))
            w
          ≡ (ok tt, w'))
        × Reported (counting 0 (maximum + 1)) w'
        × (looper.get w' ≡ idle)
  unfolding pull_sink
  pull-count count looper_count self_count h maximum fuel w room lt =
      sink_gathers (count-Leaves count looper looper_count) (count-Leaves count self self_count)
        apart callback_leaves cb h (counting 0 (maximum + 1)) fuel
        (count.set (record { i = 0; maximum = maximum }) w)
        (omega (arith, length-counting 0 (maximum + 1)))
        (rw count.get-set (maximum + 1, refl, omega arith, room))

module _ {ℓ κ} {W : Type ℓ} {T : Type κ} (checker : Ref W ProtocolChecker)
    (values : Ref W (Values T)) (apart : Apart checker values) where
  -- Giving up at once: the abort passes through a checker on an open stream to `Values`, which
  -- keeps its elements; the callback is called once, with the end that was asked for and a default
  -- value, and the checker, in the world in which it is called, has nothing to report.
  pub abort_now-through :
      (default : T) (cb : SourceCallback W T) (w : W)
      → IsOpen 0 (checker.get w)
      → (w' : W) × (pull_all
            (Values.source values default)
            (through checker)
            (make_abort_now_sink (some cb))
            w
          ≡ cb ended default w')
        × (values.get w' ≡ values.get w)
        × (terminate (checker.get w') ≡ (ok [], checker.get w'))
  unfolding pull_all pull_source pull_sink make_abort_now_sink Values.source
  abort_now-through default cb w o =
      let s = checker.get w in
      let s1 = asked ended s in
      let s2 = answered s.i (length s.counters) ended s1 in
      let w1 = checker.set s1 w in
      let w2 = checker.set s2 w1 in
      let done : IsDone ended s2 = record {
        is_done = refl;
        in_order = refl;
        room = omega (arith, o.room);
        clean = o.clean;
      } in
      (
        w2,
        through-open checker (Values.source values default) ended cb w o.not_aborted o.not_done
              (omega (arith, o.room))
            ∙ rw
                (
                  checker.get-set,
                  check_callback-open s.i (length s.counters) ended s1 o.not_done refl
                      (get_or-append_self s.counters 0 0) o.in_order (omega (arith, o.room)),
                )
                refl,
        apart.get-set_right s2 w1 ∙ apart.get-set_right s1 w,
        rw checker.get-set (terminate-IsDone ended s2 refl done),
      )
