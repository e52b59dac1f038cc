-- ===== src/PullStream/Sinks/Drain/Visits.antt =====
-- A drain (dk_pull/pull_stream/sinks/drain.h) of a conforming source.
use dk_pull.Base.{
  ℕ, zero, suc, ◌<◌, ◌≡◌, refl, sym, ◌∙◌, List, [], ◌∷◌, ◌++◌, append_assoc, append-nil, length,
  arith,
}
use dk_pull.Base.Action.{Action, ok}
use dk_pull.Base.Ref.{Ref}
use dk_pull.Types.EndOrError.{Done}
use dk_pull.Types.Stream.{Source}
use dk_pull.Looper.{Looper, idle}
use dk_pull.Looper.Rule.{Runs, start-runs}
use dk_pull.PullStream.Conforming.{Conforming, Leaves}
use dk_pull.PullStream.Sinks.Drain.{Drain, request, sink}

-- What the two functions of a drain do. `Seen ys w`: they have been given the values `ys`.
-- `Told ys w`: they have been given `ys` and then the end. They return normally, leave the looper
-- alone and make no request of their own.
pub record Consumes {ℓ κ μ ν ξ} {W : Type ℓ} {T : Type κ} {source : Source W T}
    {Left : List T → W → Type μ} {Closed : W → Type μ} {e : Done}
    (c : Conforming source Left Closed e) (looper : Ref W Looper) (self : Drain W T)
    (Seen : List T → W → Type ν) (Told : List T → W → Type ξ) : Type (ℓ ⊔ κ ⊔ μ ⊔ ν ⊔ ξ) where
  pub value :
      (ys : List T) (x : T) (xs : List T) (w : W)
      → Seen ys w
      → Left xs w
      → (w' : W) × (self.on_value x w ≡ (ok tt, w'))
        × Seen (ys ++ x ∷ []) w'
        × Left xs w'
        × (looper.get w' ≡ looper.get w)
  pub done :
      (ys : List T) (w : W)
      → Seen ys w
      → Closed w
      → (w' : W) × (self.on_done e w ≡ (ok tt, w')) × Told ys w' × (looper.get w' ≡ looper.get w)
  pub seen_looper : (ys : List T) (l : Looper) (w : W) → Seen ys w → Seen ys (looper.set l w)
  pub told_looper : (ys : List T) (l : Looper) (w : W) → Told ys w → Told ys (looper.set l w)
  pub seen_advance :
      (ys : List T) (x : T) (xs : List T) (w : W)
      → Left (x ∷ xs) w
      → Seen ys w
      → Seen ys (c.advance w)
  pub seen_finish : (ys : List T) (w : W) → Left [] w → Seen ys w → Seen ys (c.finish w)

module _ {ℓ κ μ ν ξ} {W : Type ℓ} {T : Type κ} {source : Source W T} {Left : List T → W → Type μ}
    {Closed : W → Type μ} {e : Done} {c : Conforming source Left Closed e} {looper : Ref W Looper}
    (apart : Leaves looper c) (self : Drain W T) {Seen : List T → W → Type ν}
    {Told : List T → W → Type ξ} (u : Consumes c looper self Seen Told) (all : List T) where
  -- `n` values are still to come.
  abbrev Pending : ℕ → W → Type (κ ⊔ μ ⊔ ν)
  Pending n w =
      (ys : List T) × (xs : List T) × (ys ++ xs ≡ all) × (length xs ≡ n) × Seen ys w × Left xs w

  abbrev Over : W → Type (κ ⊔ ξ)
  Over w = (ys : List T) × (ys ≡ all) × Told ys w

  round :
      (n : ℕ) (w : W)
      → Pending (suc n) w
      → (w' : W) × ((next : Action W (Unit {0})) → request self source next w ≡ next w')
        × Pending n w'
        × (looper.get w' ≡ looper.get w)
  unfolding request
  round n w (ys, [], split, len, seen, left) = absurd (omega arith)
  round n w (ys, x ∷ xs, split, len, seen, left) =
      let w1 = c.advance w in
      let (w2, run, seen2, left2, same) =
        u.value ys x xs w1 (u.seen_advance ys x xs w left seen) (c.give_left x xs w left) in
      (
        w2,
        λ next. c.give x xs w _ left ∙ rw run refl,
        (ys ++ x ∷ [], xs, append_assoc ys (x ∷ []) xs ∙ split, omega arith, seen2, left2),
        same ∙ apart.get_advance x xs w left,
      )

  last_round :
      (w : W)
      → Pending zero w
      → (w' : W) × ((next : Action W (Unit {0})) → request self source next w ≡ (ok tt, w'))
        × Over w'
        × (looper.get w' ≡ looper.get w)
  unfolding request
  last_round w (ys, x ∷ xs, split, len, seen, left) = absurd (omega arith)
  last_round w (ys, [], split, len, seen, left) =
      let w1 = c.finish w in
      let (w2, run, told, same) =
        u.done ys w1 (u.seen_finish ys w left seen) (c.end_closed w left) in
      (
        w2,
        λ next. c.end w _ left ∙ rw (c.ends) run,
        (ys, sym (append-nil ys) ∙ split, told),
        same ∙ apart.get_finish w left,
      )

  drain-Runs : Runs looper (request self source) Pending Over
  drain-Runs = record {
    stable = λ n l w (ys, xs, split, len, seen, left).
        (ys, xs, split, len, u.seen_looper ys l w seen, apart.set_left xs l w left);
    stable_end = λ l w (ys, split, told). (ys, split, u.told_looper ys l w told);
    step = round;
    stop = last_round;
  }

  -- A drain of a conforming source, with functions that return and leave the looper and the source
  -- alone, visits each value once and in order, and is then told the end once; the call returns and
  -- the looper is idle again. The source leaves the looper alone and does not undo what the
  -- functions have recorded. More fuel than there are values is enough.
  pub sink_visits :
      (fuel : ℕ) (w : W)
      → length all < fuel
      → Seen [] w
      → Left all w
      → (w' : W) × (sink self looper fuel source w ≡ (ok tt, w'))
        × Told all w'
        × (looper.get w' ≡ idle)
  unfolding sink
  sink_visits fuel w lt seen left =
      let (w', run, (ys, same, told), quiet) =
        start-runs looper (request self source) Pending Over drain-Runs (length all) fuel w lt
          ([], all, refl, refl, seen, left) in
      (w', run, rw same at told, quiet)
