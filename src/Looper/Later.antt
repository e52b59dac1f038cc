-- ===== src/Looper/Later.antt =====
-- `Looper` (dk_pull/looper/looper.cc) with a function that calls `next` at once in some rounds,
-- and in others hands it to something that calls it later, such as a timer.
use dk_pull.Base.{ℕ, zero, suc, ◌≤◌, ◌<◌, ◌≡◌, refl, ◌∙◌, ◌⊎◌, inl, inr, arith}
use dk_pull.Base.Action.{Action, ok, skip, ◌>>◌}
use dk_pull.Base.Ref.{Ref}
use dk_pull.Looper.{Looper, idle, create, LooperFunction, enter, loop, make_next, start}
use dk_pull.Looper.Rule.{busy, asked, enter-idle, enter-asked, loop-quiet, loop-asked_lem}

-- `I n w`: `n` more rounds are to follow the next one. A round asks for the one after it as the
-- last thing that it does, or has it asked for later, or is the last.
pub data Round {ℓ κ μ} {W : Type ℓ} (self : Ref W Looper) (looper_function : LooperFunction W)
    (I : ℕ → W → Type κ) (J : W → Type μ) (n : ℕ) (w : W) : Type (ℓ ⊔ κ ⊔ μ) where
  asks :
      (m : ℕ) (w' : W)
      → n ≡ suc m
      → ((next : Action W (Unit {0})) → looper_function next w ≡ next w')
      → I m w'
      → self.get w' ≡ self.get w
      → Round self looper_function I J n w
  posts :
      (m : ℕ) (w' : W)
      → n ≡ suc m
      → ((next : Action W (Unit {0})) → looper_function next w ≡ (ok tt, w'))
      → I m w'
      → self.get w' ≡ self.get w
      → Round self looper_function I J n w
  stops :
      (w' : W)
      → ((next : Action W (Unit {0})) → looper_function next w ≡ (ok tt, w'))
      → J w'
      → self.get w' ≡ self.get w
      → Round self looper_function I J n w

pub record RunsLater {ℓ κ μ} {W : Type ℓ} (self : Ref W Looper) (looper_function : LooperFunction W)
    (I : ℕ → W → Type κ) (J : W → Type μ) : Type (ℓ ⊔ κ ⊔ μ) where
  pub stable : (n : ℕ) (l : Looper) (w : W) → I n w → I n (self.set l w)
  pub stable_end : (l : Looper) (w : W) → J w → J (self.set l w)
  pub round : (n : ℕ) (w : W) → I n w → Round self looper_function I J n w

module _ {ℓ} {W : Type ℓ} (self : Ref W Looper) (looper_function : LooperFunction W) where
  -- The calls of `next` that come later, one after the other.
  abbrev pub again : ℕ → ℕ → Action W (Unit {0})
  again fuel zero = skip
  again fuel (suc k) = make_next self looper_function fuel >> again fuel k

module _ {ℓ κ μ} {W : Type ℓ} (self : Ref W Looper) (looper_function : LooperFunction W)
    (I : ℕ → W → Type κ) (J : W → Type μ) (r : RunsLater self looper_function I J) where
  -- It is over, or fewer rounds than `n` are to follow the one that is asked for later.
  abbrev Rest : ℕ → W → Type (κ ⊔ μ)
  Rest n w = J w ⊎ ((m : ℕ) × (m < n) × I m w)

  Rest-suc : (n : ℕ) (w : W) → Rest n w → Rest (suc n) w
  Rest-suc n w (inl j) = inl j
  Rest-suc n w (inr (m, lt, i)) = inr (m, omega arith, i)

  Rest-set : (n : ℕ) (l : Looper) (w : W) → Rest n w → Rest n (self.set l w)
  Rest-set n l w (inl j) = inl (r.stable_end l w j)
  Rest-set n l w (inr (m, lt, i)) = inr (m, lt, r.stable m l w i)

  loop-later :
      (n fuel : ℕ) (w : W)
      → n < fuel
      → I n w
      → self.get w ≡ asked
      → (w' : W) × (loop self looper_function (suc fuel) w ≡ (ok tt, w'))
        × Rest n w'
        × (self.get w' ≡ busy)
  loop-later n zero w lt i h = absurd (omega arith)
  loop-later n (suc f) w lt i h = elim (r.round n (self.set busy w) (r.stable n busy w i)) [
    | stops w2 run j frame ↦
        let quiet : self.get w2 ≡ busy = frame ∙ self.get-set busy w in
        (
          w2,
          rw
              (
                loop-asked_lem self looper_function (suc f) w h,
                run (enter self (loop self looper_function (suc f))),
              )
              (loop-quiet self looper_function f w2 quiet),
          inl j,
          quiet,
        )
    | posts m w2 e run i2 frame ↦
        let quiet : self.get w2 ≡ busy = frame ∙ self.get-set busy w in
        (
          w2,
          rw
              (
                loop-asked_lem self looper_function (suc f) w h,
                run (enter self (loop self looper_function (suc f))),
              )
              (loop-quiet self looper_function f w2 quiet),
          inr (m, omega arith, i2),
          quiet,
        )
    | asks m w2 e run i2 frame ↦
        let b : self.get w2 ≡ busy = frame ∙ self.get-set busy w in
        let (w', done, rest, quiet) =
          loop-later m f (self.set asked w2) (omega arith) (r.stable m asked w2 i2)
            (self.get-set asked w2) in
        (
          w',
          rw
              (
                loop-asked_lem self looper_function (suc f) w h,
                run (enter self (loop self looper_function (suc f))),
                enter-asked self looper_function (loop self looper_function (suc f)) w2 b,
              )
              done,
          rw e (Rest-suc m w' rest),
          quiet,
        )
  ]

  make_next-later :
      (n fuel : ℕ) (w : W)
      → suc n < fuel
      → I n w
      → self.get w ≡ idle
      → (w' : W) × (make_next self looper_function fuel w ≡ (ok tt, w'))
        × Rest n w'
        × (self.get w' ≡ idle)
  unfolding make_next
  make_next-later n zero w lt i h = absurd (omega arith)
  make_next-later n (suc f) w lt i h =
      let (w', done, rest, quiet) =
        loop-later n f (self.set asked w) (omega arith) (r.stable n asked w i)
          (self.get-set asked w) in
      (
        self.set idle w',
        enter-idle self (loop self looper_function (suc f)) w w' h done quiet,
        Rest-set n idle w' rest,
        self.get-set idle w',
      )

  again-ends :
      (bound n fuel : ℕ) (w : W)
      → n < bound
      → suc n < fuel
      → I n w
      → self.get w ≡ idle
      → (k : ℕ) × (k ≤ suc n)
        × (w' : W) × (again self looper_function fuel k w ≡ (ok tt, w'))
        × J w'
        × (self.get w' ≡ idle)
  again-ends zero n fuel w b lt i h = absurd (omega arith)
  again-ends (suc bound) n fuel w b lt i h =
      let (w1, run, rest, quiet) = make_next-later n fuel w lt i h in
      elim rest [
        | inl j ↦ (1, omega arith, w1, rw run refl, j, quiet)
        | inr (m, less, i1) ↦
            let (k, le, w', more, j, q) =
              again-ends bound m fuel w1 (omega arith) (omega arith) i1 quiet in
            (suc k, omega arith, w', rw run more, j, q)
      ]

  -- A looper whose function runs `n + 1` rounds, each of which asks for the next one at once or
  -- later in any pattern: created and started, and then asked at most `n` times later, it has run
  -- all of its rounds; each call returns, and the looper is idle. More fuel than `n + 1` is enough.
  pub start-later :
      (n fuel : ℕ) (w : W)
      → suc n < fuel
      → I n w
      → (k : ℕ) × (k ≤ n)
        × (w' : W) × ((do
          create self
          start self looper_function fuel
          again self looper_function fuel k)
              w
            ≡ (ok tt, w'))
        × J w'
        × (self.get w' ≡ idle)
  unfolding start
  start-later n fuel w lt i = elim (r.round n (self.set idle w) (r.stable n idle w i)) [
    | stops w1 run j frame ↦ (
      0,
      omega arith,
      w1,
      rw (run (make_next self looper_function fuel)) refl,
      j,
      frame ∙ self.get-set idle w,
    )
    | posts m w1 e run i1 frame ↦
        let (k, le, w', more, j, q) =
          again-ends (suc m) m fuel w1 (omega arith) (omega arith) i1
            (frame ∙ self.get-set idle w) in
        (k, omega arith, w', rw (run (make_next self looper_function fuel)) more, j, q)
    | asks m w1 e run i1 frame ↦
        let (w2, ran, rest, quiet) =
          make_next-later m fuel w1 (omega arith) i1 (frame ∙ self.get-set idle w) in
        elim rest [
          | inl j ↦ (
            0,
            omega arith,
            w2,
            rw (run (make_next self looper_function fuel), ran) refl,
            j,
            quiet,
          )
          | inr (m', less, i2) ↦
              let (k, le, w', more, j, q) =
                again-ends (suc m') m' fuel w2 (omega arith) (omega arith) i2 quiet in
              (k, omega arith, w', rw (run (make_next self looper_function fuel), ran) more, j, q)
        ]
  ]
