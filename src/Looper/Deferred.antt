-- ===== src/Looper/Deferred.antt =====
-- `Looper` (dk_pull/looper/looper.cc) with a function that may leave a round to something that ends
-- it later, such as a source that keeps the callback of a request.
use dk_pull.Base.{ℕ, zero, suc, ◌≤◌, ◌<◌, ◌≡◌, refl, ◌∙◌, ◌⊎◌, inl, inr, arith}
use dk_pull.Base.Action.{Action, ok, skip, ◌>>◌}
use dk_pull.Base.Ref.{Ref}
use dk_pull.Looper.{Looper, idle, create, LooperFunction, enter, loop, make_next, start}
use dk_pull.Looper.Rule.{busy, asked, enter-idle, enter-asked, loop-quiet, loop-asked_lem}

-- How a round ends: it asks for the next one as the last thing that it does, or it is the last.
-- `I n w`: `n` more rounds are to follow the next one, so that only a round with `n` zero is the
-- last.
pub data Turn {ℓ κ μ} {W : Type ℓ} (self : Ref W Looper) (act : LooperFunction W)
    (I : ℕ → W → Type κ) (J : W → Type μ) (n : ℕ) (w : W) : Type (ℓ ⊔ κ ⊔ μ) where
  asks :
      (m : ℕ) (w' : W)
      → n ≡ suc m
      → ((next : Action W (Unit {0})) → act next w ≡ next w')
      → I m w'
      → self.get w' ≡ self.get w
      → Turn self act I J n w
  stops :
      (w' : W)
      → n ≡ zero
      → ((next : Action W (Unit {0})) → act next w ≡ (ok tt, w'))
      → J w'
      → self.get w' ≡ self.get w
      → Turn self act I J n w

-- A round of the function: it ends, or it is left to `act` to end, with `P n w` until then.
pub data Round {ℓ κ μ ν} {W : Type ℓ} (self : Ref W Looper) (looper_function : LooperFunction W)
    (I : ℕ → W → Type κ) (P : ℕ → W → Type ν) (J : W → Type μ) (n : ℕ) (w : W)
    : Type (ℓ ⊔ κ ⊔ μ ⊔ ν) where
  turns : Turn self looper_function I J n w → Round self looper_function I P J n w
  parks :
      (w' : W)
      → ((next : Action W (Unit {0})) → looper_function next w ≡ (ok tt, w'))
      → P n w'
      → self.get w' ≡ self.get w
      → Round self looper_function I P J n w

pub record Defers {ℓ κ μ ν} {W : Type ℓ} (self : Ref W Looper)
    (looper_function act : LooperFunction W) (I : ℕ → W → Type κ) (P : ℕ → W → Type ν)
    (J : W → Type μ) : Type (ℓ ⊔ κ ⊔ μ ⊔ ν) where
  pub stable : (n : ℕ) (l : Looper) (w : W) → I n w → I n (self.set l w)
  pub stable_parked : (n : ℕ) (l : Looper) (w : W) → P n w → P n (self.set l w)
  pub stable_end : (l : Looper) (w : W) → J w → J (self.set l w)
  pub round : (n : ℕ) (w : W) → I n w → Round self looper_function I P J n w
  pub wake : (n : ℕ) (w : W) → P n w → Turn self act I J n w

module _ {ℓ} {W : Type ℓ} (self : Ref W Looper) (looper_function act : LooperFunction W) where
  -- The later ends of rounds, one after the other, each with the looper's `next`.
  abbrev pub resume : ℕ → ℕ → Action W (Unit {0})
  resume fuel zero = skip
  resume fuel (suc k) = act (make_next self looper_function fuel) >> resume fuel k

module _ {ℓ κ μ ν} {W : Type ℓ} (self : Ref W Looper) (looper_function act : LooperFunction W)
    (I : ℕ → W → Type κ) (P : ℕ → W → Type ν) (J : W → Type μ)
    (r : Defers self looper_function act I P J) where
  -- It is over, or a round with at most `n` to follow is parked.
  abbrev Rest : ℕ → W → Type (μ ⊔ ν)
  Rest n w = J w ⊎ ((m : ℕ) × (m ≤ n) × P m w)

  Rest-le : (m n : ℕ) (w : W) → m ≤ n → Rest m w → Rest n w
  Rest-le m n w h (inl j) = inl j
  Rest-le m n w h (inr (i, le, p)) = inr (i, omega arith, p)

  Rest-set : (n : ℕ) (l : Looper) (w : W) → Rest n w → Rest n (self.set l w)
  Rest-set n l w (inl j) = inl (r.stable_end l w j)
  Rest-set n l w (inr (m, le, p)) = inr (m, le, r.stable_parked m l w p)

  -- A loop in which the function returned without asking.
  loop-returned :
      (n fuel : ℕ) (w w2 : W)
      → self.get w ≡ asked
      → ((next : Action W (Unit {0})) → looper_function next (self.set busy w) ≡ (ok tt, w2))
      → self.get w2 ≡ self.get (self.set busy w)
      → Rest n w2
      → (w' : W) × (loop self looper_function (suc (suc fuel)) w ≡ (ok tt, w'))
        × Rest n w'
        × (self.get w' ≡ busy)
  loop-returned n f w w2 h run frame rest =
      let quiet : self.get w2 ≡ busy = frame ∙ self.get-set busy w in
      let next = enter self (loop self looper_function (suc f)) in
      (
        w2,
        rw (loop-asked_lem self looper_function (suc f) w h, run next)
            (loop-quiet self looper_function f w2 quiet),
        rest,
        quiet,
      )

  loop-deferred :
      (n fuel : ℕ) (w : W)
      → n < fuel
      → I n w
      → self.get w ≡ asked
      → (w' : W) × (loop self looper_function (suc fuel) w ≡ (ok tt, w'))
        × Rest n w'
        × (self.get w' ≡ busy)
  loop-deferred n zero w lt i h = absurd (omega arith)
  loop-deferred n (suc f) w lt i h = elim (r.round n (self.set busy w) (r.stable n busy w i)) [
    | parks w2 run p frame ↦ loop-returned n f w w2 h run frame (inr (n, omega arith, p))
    | turns t ↦ elim t [
      | stops w2 last run j frame ↦ loop-returned n f w w2 h run frame (inl j)
      | asks m w2 e run i2 frame ↦
          let b : self.get w2 ≡ busy = frame ∙ self.get-set busy w in
          let next = enter self (loop self looper_function (suc f)) in
          let (w', done, rest, quiet) =
            loop-deferred m f (self.set asked w2) (omega arith) (r.stable m asked w2 i2)
              (self.get-set asked w2) in
          (
            w',
            loop-asked_lem self looper_function (suc f) w h
                ∙ rw
                    (
                      run next,
                      enter-asked self looper_function (loop self looper_function (suc f)) w2 b,
                    )
                    done,
            Rest-le m n w' (omega arith) rest,
            quiet,
          )
    ]
  ]

  make_next-deferred :
      (n fuel : ℕ) (w : W)
      → suc n < fuel
      → I n w
      → self.get w ≡ idle
      → (w' : W) × (make_next self looper_function fuel w ≡ (ok tt, w'))
        × Rest n w'
        × (self.get w' ≡ idle)
  unfolding make_next
  make_next-deferred n zero w lt i h = absurd (omega arith)
  make_next-deferred n (suc f) w lt i h =
      let (w', done, rest, quiet) =
        loop-deferred n f (self.set asked w) (omega arith) (r.stable n asked w i)
          (self.get-set asked w) in
      (
        self.set idle w',
        enter-idle self (loop self looper_function (suc f)) w w' h done quiet,
        Rest-set n idle w' rest,
        self.get-set idle w',
      )

  -- All of the later ends.
  abbrev Ends : ℕ → ℕ → W → Type (ℓ ⊔ μ)
  Ends n fuel w =
      (k : ℕ) × (k ≤ n)
      × (w' : W) × (resume self looper_function act fuel k w ≡ (ok tt, w'))
      × J w'
      × (self.get w' ≡ idle)

  resume-Ends :
      (bound n fuel : ℕ) (w : W)
      → n < bound
      → n < fuel
      → P n w
      → self.get w ≡ idle
      → Ends (suc n) fuel w
  resume-Ends zero n fuel w b lt p h = absurd (omega arith)
  resume-Ends (suc bound) n fuel w b lt p h = elim (r.wake n w p) [
    | stops w1 last run j frame ↦
        (1, omega arith, w1, rw (run (make_next self looper_function fuel)) refl, j, frame ∙ h)
    | asks m w1 e run i1 frame ↦
        let (w2, ran, rest, quiet) = make_next-deferred m fuel w1 (omega arith) i1 (frame ∙ h) in
        elim rest [
          | inl j ↦ (
            1,
            omega arith,
            w2,
            rw (run (make_next self looper_function fuel), ran) refl,
            j,
            quiet,
          )
          | inr (m', le, p2) ↦
              let (k, few, w', more, j, q) =
                resume-Ends bound m' fuel w2 (omega arith) (omega arith) p2 quiet in
              (
                suc k,
                omega arith,
                w',
                rw (run (make_next self looper_function fuel), ran) more,
                j,
                q,
              )
        ]
  ]

  resume-Rest : (n fuel : ℕ) (w : W) → n < fuel → Rest n w → self.get w ≡ idle → Ends (suc n) fuel w
  resume-Rest n fuel w lt (inl j) h = (0, omega arith, w, refl, j, h)
  resume-Rest n fuel w lt (inr (m, le, p)) h =
      let (k, few, w', ran, j, q) = resume-Ends (suc m) m fuel w (omega arith) (omega arith) p h in
      (k, omega arith, w', ran, j, q)

  -- For a function of which each round leaves the looper alone and either asks for the next round as
  -- the last thing that it does, with one round less to follow, or is the last, when none are to
  -- follow, or leaves it to a later call to do one of the two, and with `n` rounds to follow the
  -- first: there is a number of such later calls, at most `n + 1`, with which the looper, created
  -- and started, gets to its end; `Start` and each of them return, the looper is idle then, and what
  -- the last round brings about holds. What is known of the world does not depend on the looper's
  -- own members. More fuel than `n` is enough.
  pub start-deferred :
      (n fuel : ℕ) (w : W)
      → n < fuel
      → I n w
      → (k : ℕ) × (k ≤ suc n)
        × (w' : W) × ((do
          create self
          start self looper_function fuel
          resume self looper_function act fuel k)
              w
            ≡ (ok tt, w'))
        × J w'
        × (self.get w' ≡ idle)
  unfolding start
  start-deferred n fuel w lt i = elim (r.round n (self.set idle w) (r.stable n idle w i)) [
    | parks w1 run p frame ↦
        let (k, few, w', ran, j, q) =
          resume-Rest n fuel w1 lt (inr (n, omega arith, p)) (frame ∙ self.get-set idle w) in
        (k, few, w', rw (run (make_next self looper_function fuel)) ran, j, q)
    | turns t ↦ elim t [
      | stops w1 last run j frame ↦ (
        0,
        omega arith,
        w1,
        rw (run (make_next self looper_function fuel)) refl,
        j,
        frame ∙ self.get-set idle w,
      )
      | asks m w1 e run i1 frame ↦
          let (w2, ran, rest, quiet) =
            make_next-deferred m fuel w1 (omega arith) i1 (frame ∙ self.get-set idle w) in
          let (k, few, w', more, j, q) = resume-Rest m fuel w2 (omega arith) rest quiet in
          (k, omega arith, w', rw (run (make_next self looper_function fuel), ran) more, j, q)
    ]
  ]
