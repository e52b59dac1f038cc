-- ===== src/PullStream/Sinks/Drain/Endless.antt =====
-- A drain (dk_pull/pull_stream/sinks/drain.h) of a `Count` whose maximum is the largest
-- `uint64_t`.
use dk_pull.Base.{ℕ, ◌+◌, ◌<◌, ◌≡◌, refl, ◌∙◌, Option, some, u64_mod, next_u64, next_u64-lt, arith}
use dk_pull.Base.Action.{Action, ok, out_of_fuel}
use dk_pull.Base.Ref.{Ref, Apart}
use dk_pull.Looper.{Looper}
use dk_pull.Looper.Endless.{start-endless}
use dk_pull.PullStream.Sources.Count
use dk_pull.PullStream.Sources.Count.{Count}
use dk_pull.PullStream.Conforming.Count.{source_open}
use dk_pull.PullStream.Sinks.Drain
use dk_pull.PullStream.Sinks.Drain.{OnDone, OnValue, request}

module _ {ℓ} {W : Type ℓ} (count : Ref W Count) (looper : Ref W Looper)
    (apart : Apart looper count) where
  -- The function for a value returns, and leaves the source and the looper alone.
  abbrev pub Returns : OnValue W ℕ → Type ℓ
  Returns on_value =
      (v : ℕ) (w : W)
      → (w' : W) × (on_value v w ≡ (ok tt, w'))
        × (count.get w' ≡ count.get w)
        × (looper.get w' ≡ looper.get w)

  abbrev pub IsTop : W → Type 0
  IsTop w = ((count.get w).maximum + 1 ≡ u64_mod) × ((count.get w).i < u64_mod)

  module _ (on_value : OnValue W ℕ) (on_done : Option (OnDone W)) (returns : Returns on_value) where
    round :
        (w : W)
        → IsTop w
        → (w' : W) × ((next : Action W (Unit {0}))
            → request (Drain.create (some on_value) on_done) (Count.source count) next w ≡ next w')
          × IsTop w'
          × (looper.get w' ≡ looper.get w)
    unfolding request
    round w (top, fits) =
        let w1 = count.set (record (count.get w) { i = next_u64 (count.get w).i }) w in
        let (w2, run, same, quiet) = returns (count.get w).i w1 in
        let kept : count.get w2 ≡ record (count.get w) { i = next_u64 (count.get w).i } =
          same ∙ count.get-set _ w in
        (
          w2,
          λ next. source_open count w _ (omega arith) ∙ rw run refl,
          (rw kept top, rw kept (next_u64-lt (count.get w).i)),
          quiet ∙ apart.get-set_left _ w,
        )

    -- A drain of a `Count` whose maximum is the largest `uint64_t` does not return, if its function
    -- for a value returns and leaves the source and the looper alone: no fuel is enough.
    pub sink-never_ends :
        (fuel : ℕ) (w : W)
        → IsTop w
        → (w' : W) × (Drain.sink
              (Drain.create (some on_value) on_done)
              looper
              fuel
              (Count.source count)
              w
            ≡ (out_of_fuel, w'))
    unfolding Drain.sink
    sink-never_ends fuel w top =
        start-endless looper (request (Drain.create (some on_value) on_done) (Count.source count))
          IsTop (record { stable = λ l w top. rw (apart.get-set_right l w) top; step = round }) fuel
          w top
