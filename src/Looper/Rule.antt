-- ===== src/Looper/Rule.antt =====
-- `Looper` (dk_pull/looper/looper.cc) with a function that calls `next` last or not at all.
use dk_pull.Base.{ℕ, zero, suc, ◌<◌, ◌≡◌, refl, ◌∙◌, true, false, arith}
use dk_pull.Base.Action.{Action, ok, and_then, ◌>>◌}
use dk_pull.Base.Ref.{Ref}
use dk_pull.Looper.{Looper, idle, create, LooperFunction, enter, loop, make_next, start}

-- The looper while its function is running inside the loop, with `next` called or not.
abbrev pub busy : Looper
busy = record { next_called = false; looper_function_returned = false }

abbrev pub asked : Looper
asked = record { next_called = true; looper_function_returned = false }

module _ {ℓ} {W : Type ℓ} (self : Ref W Looper) where
  -- While the function is running, `next` only leaves its mark: it does not run the function.
  pub enter-busy :
      (l : Action W (Unit {0})) (w : W)
      → (self.get w).looper_function_returned ≡ false
      → enter self l w ≡ (ok tt, self.set (record (self.get w) { next_called = true }) w)
  unfolding enter
  enter-busy l w h = rw (self.get-set, h)

  -- On an idle looper `next` runs the loop, and leaves the looper idle.
  pub enter-idle :
      (l : Action W (Unit {0})) (w w' : W)
      → self.get w ≡ idle
      → l (self.set asked w) ≡ (ok tt, w')
      → self.get w' ≡ busy
      → enter self l w ≡ (ok tt, self.set idle w')
  unfolding enter
  enter-idle l w w' h run q = simp (h, self.get-set, self.set-set, run, q)

module _ {ℓ} {W : Type ℓ} (self : Ref W Looper) (looper_function : LooperFunction W) where
  pub loop-quiet :
      (fuel : ℕ) (w : W) → self.get w ≡ busy → loop self looper_function (suc fuel) w ≡ (ok tt, w)
  unfolding loop
  loop-quiet fuel w h = rw (h, loop) refl

  pub loop-asked_lem :
      (fuel : ℕ) (w : W)
      → self.get w ≡ asked
      → loop self looper_function (suc fuel) w
        ≡ and_then
            (looper_function (enter self (loop self looper_function fuel)) (self.set busy w))
            (λ _. loop self looper_function fuel)
  unfolding loop
  loop-asked_lem fuel w h = rw (h, loop) (rw h refl)

  pub enter-asked :
      (l : Action W (Unit {0})) (w : W)
      → self.get w ≡ busy
      → enter self l w ≡ (ok tt, self.set asked w)
  enter-asked l w h = rw (enter-busy self l w (rw h refl), h) refl

-- `I n w`: in the world `w` the function will be run `n` more times after this one.
pub record Runs {ℓ κ μ} {W : Type ℓ} (self : Ref W Looper) (looper_function : LooperFunction W)
    (I : ℕ → W → Type κ) (J : W → Type μ) : Type (ℓ ⊔ κ ⊔ μ) where
  pub stable : (n : ℕ) (l : Looper) (w : W) → I n w → I n (self.set l w)
  pub stable_end : (l : Looper) (w : W) → J w → J (self.set l w)
  pub step :
      (n : ℕ) (w : W)
      → I (suc n) w
      → (w' : W) × ((next : Action W (Unit {0})) → looper_function next w ≡ next w')
        × I n w'
        × (self.get w' ≡ self.get w)
  pub stop :
      (w : W)
      → I zero w
      → (w' : W) × ((next : Action W (Unit {0})) → looper_function next w ≡ (ok tt, w'))
        × J w'
        × (self.get w' ≡ self.get w)

module _ {ℓ κ μ} {W : Type ℓ} (self : Ref W Looper) (looper_function : LooperFunction W)
    (I : ℕ → W → Type κ) (J : W → Type μ) (r : Runs self looper_function I J) where
  -- A loop in which `next` has been called runs the function until it stops asking.
  loop-asked :
      (n fuel : ℕ) (w : W)
      → n < fuel
      → I n w
      → self.get w ≡ asked
      → (w' : W) × (loop self looper_function (suc fuel) w ≡ (ok tt, w'))
        × J w'
        × (self.get w' ≡ busy)
  loop-asked n zero w lt i h = absurd (omega arith)
  loop-asked zero (suc f) w lt i h =
      let (w', run, j, frame) = r.stop (self.set busy w) (r.stable zero busy w i) in
      let quiet : self.get w' ≡ busy = frame ∙ self.get-set busy w in
      (
        w',
        rw
            (
              loop-asked_lem self looper_function (suc f) w h,
              run (enter self (loop self looper_function (suc f))),
            )
            (loop-quiet self looper_function f w' quiet),
        j,
        quiet,
      )
  loop-asked (suc n) (suc f) w lt i h =
      let (w2, run, i2, frame) = r.step n (self.set busy w) (r.stable (suc n) busy w i) in
      let b : self.get w2 ≡ busy = frame ∙ self.get-set busy w in
      let (w', done, j, quiet) =
        loop-asked n f (self.set asked w2) (omega arith) (r.stable n asked w2 i2)
          (self.get-set asked w2) in
      (
        w',
        rw
            (
              loop-asked_lem self looper_function (suc f) w h,
              run (enter self (loop self looper_function (suc f))),
              enter-asked self looper_function (loop self looper_function (suc f)) w2 b,
            )
            done,
        j,
        quiet,
      )

  -- A call of `next` on an idle looper, whose function asks for the next round as the last thing
  -- that it does for `n` rounds and then does not ask, returns after `n + 1` rounds and leaves the
  -- looper idle. More fuel than `n + 1` is enough.
  pub make_next-runs :
      (n fuel : ℕ) (w : W)
      → suc n < fuel
      → I n w
      → self.get w ≡ idle
      → (w' : W) × (make_next self looper_function fuel w ≡ (ok tt, w'))
        × J w'
        × (self.get w' ≡ idle)
  unfolding make_next
  make_next-runs n zero w lt i h = absurd (omega arith)
  make_next-runs n (suc f) w lt i h =
      let w1 = self.set asked w in
      let (w', done, j, quiet) =
        loop-asked n f w1 (omega arith) (r.stable n asked w i) (self.get-set asked w) in
      (
        self.set idle w',
        enter-idle self (loop self looper_function (suc f)) w w' h done quiet,
        r.stable_end idle w' j,
        self.get-set idle w',
      )

  -- A looper whose function, for `n` rounds, asks for the next round as the last thing that it
  -- does, and then does not ask: created and started, it returns after the `n + 1` rounds and is
  -- idle. More fuel than `n` is enough.
  pub start-runs :
      (n fuel : ℕ) (w : W)
      → n < fuel
      → I n w
      → (w' : W) × ((create self >> start self looper_function fuel) w ≡ (ok tt, w'))
        × J w'
        × (self.get w' ≡ idle)
  unfolding start
  start-runs zero fuel w lt i =
      let (w', run, j, frame) = r.stop (self.set idle w) (r.stable zero idle w i) in
      (w', run (make_next self looper_function fuel), j, frame ∙ self.get-set idle w)
  start-runs (suc n) fuel w lt i =
      let (w2, run, i2, frame) = r.step n (self.set idle w) (r.stable (suc n) idle w i) in
      let (w', done, j, quiet) = make_next-runs n fuel w2 lt i2 (frame ∙ self.get-set idle w) in
      (w', run (make_next self looper_function fuel) ∙ done, j, quiet)
