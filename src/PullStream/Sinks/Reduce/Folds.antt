-- ===== src/PullStream/Sinks/Reduce/Folds.antt =====
-- A reduction (dk_pull/pull_stream/sinks/reduce.h) over a conforming source, and its `CHECK`s.
use mathlib.Core.List.{foldl}
use dk_pull.Base.{
  ℕ, ◌<◌, ◌≡◌, refl, ◌∙◌, List, length, Option, none, some, true, false, Bool-cases, inl, inr,
}
use dk_pull.Base.Action.{Action, ok, fatal, ◌>>◌}
use dk_pull.Base.Ref.{Ref, Apart}
use dk_pull.Types.EndOrError.{Done, to_bool}
use dk_pull.Types.Stream.{Source}
use dk_pull.Looper.{Looper, idle}
use dk_pull.PullStream.Conforming.{Conforming, Leaves}
use dk_pull.PullStream.Sinks.Drain
use dk_pull.PullStream.Sinks.Drain.Visits.{Consumes, sink_visits}
use dk_pull.PullStream.Sinks.Reduce.Steps.{drain, Reduces, back, Folded, Told, visit, tell}
use dk_pull.PullStream.Sinks.Reduce.{State, Reduce, create, release, on_value, on_done, sink}

module _ {ℓ κ τ} {W : Type ℓ} {A : Type κ} {T : Type τ} (r : Reduce W A T)
    (self : Ref W (Option (State A))) where
  -- Once the object has been let go, an answer of the source aborts the process.
  pub on_value-release :
      (v : T) (w : W) → on_value r self v (self.set none w) ≡ (fatal, self.set none w)
  unfolding on_value
  on_value-release v w = rw self.get-set

  pub on_done-release :
      (e : Done) (w : W) → on_done r self e (self.set none w) ≡ (fatal, self.set none w)
  unfolding on_done
  on_done-release e w = rw self.get-set

  -- Once the last owner has let a reduction go, whatever the source then answers, a value or the
  -- end, aborts the process, and the user's callback is not called.
  pub on_answer-release :
      (next : Action W (Unit {0})) (e : Done) (v : T) (w : W)
      → (release self
            >> Drain.on_answer
                (Drain.create (some (on_value r self)) (some (on_done r self)))
                next
                e
                v)
          w
        ≡ (fatal, self.set none w)
  on_answer-release next e v w = elim (Bool-cases (to_bool e)) [
    | inl over ↦ rw over (on_done-release e w)
    | inr more ↦ rw more (rw (on_value-release v w) refl)
  ]

  -- A sink can be used once.
  pub sink_twice :
      (looper : Ref W Looper) (fuel : ℕ) (source : Source W T) (s : State A) (w : W)
      → self.get w ≡ some s
      → s.has_drain ≡ true
      → sink r self looper fuel source w ≡ (fatal, w)
  unfolding sink
  sink_twice looper fuel source s w h d = rw h (rw d refl)

module _ {ℓ κ τ μ ν} {W : Type ℓ} {A : Type κ} {T : Type τ} {source : Source W T}
    {Left : List T → W → Type μ} {Closed : W → Type μ} {e : Done}
    {c : Conforming source Left Closed e} {looper : Ref W Looper} {self : Ref W (Option (State A))}
    (looper_apart : Leaves looper c) (self_apart : Leaves self c) (apart : Apart looper self)
    (r : Reduce W A T) {f : A → T → A} {Reported : A → W → Type ν}
    (h : Reduces r f looper Closed e Reported) (a0 : A) where
  reduce-Consumes :
      Consumes c looper
        (drain r self)
        (λ ys w. Folded r f a0 ys (self.get w))
        (Told r f Reported a0)
  reduce-Consumes = record {
    value = visit r h apart self_apart.set_left self_apart.set_closed a0;
    done = tell r h apart self_apart.set_left self_apart.set_closed a0;
    seen_looper = λ ys l w seen. apart.get-set_right l w ∙ seen;
    told_looper = λ ys l w told. h.reported_looper (foldl f a0 ys) l w told;
    seen_advance = λ ys x xs w left seen. self_apart.get_advance x xs w left ∙ seen;
    seen_finish = λ ys w left seen. self_apart.get_finish w left ∙ seen;
  }

  -- A reduction that is created and used on a conforming source, with a reducer that has no effect
  -- and a callback that is not empty, returns, and leaves the looper alone, calls its callback with
  -- the left fold of all the values and with the end of the stream; the call returns and the looper
  -- is idle again. The source leaves the looper and the reduction alone. More fuel than there are
  -- values is enough.
  pub sink_folds :
      (all : List T) (fuel : ℕ) (w : W)
      → length all < fuel
      → Left all w
      → (w' : W) × ((create self a0 >> sink r self looper fuel source) w ≡ (ok tt, w'))
        × Reported (foldl f a0 all) w'
        × (looper.get w' ≡ idle)
  unfolding sink
  sink_folds all fuel w lt left =
      let w1 = self.set (some (record { has_drain = false; accumulator = a0 })) w in
      let w2 = self.set (back r a0) w1 in
      let (w', run, told, quiet) =
        sink_visits looper_apart _ reduce-Consumes all fuel w2 lt (self.get-set (back r a0) w1)
          (self_apart.set_left all _ w1 (self_apart.set_left all _ w left)) in
      (w', rw self.get-set run, told, quiet)
