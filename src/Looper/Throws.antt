-- ===== src/Looper/Throws.antt =====
-- `Looper` (dk_pull/looper/looper.cc) with a function that throws in some round.
use dk_pull.Base.{false, true, List, [], ◌∷◌, ℕ, zero, suc, ◌<◌, ◌≡◌, refl, ◌∙◌, arith}
use dk_pull.Base.Action.{
  Action, Exception, Result, ok, throw, fatal, out_of_fuel, and_then, skip, ◌>>◌,
}
use dk_pull.Base.Ref.{Ref, modify}
use dk_pull.Looper.{Looper, idle, create, LooperFunction, enter, loop, make_next, start}
use dk_pull.Looper.Rule.{busy, asked, enter-busy, enter-asked, loop-asked_lem}

-- `I n w`: in the world `w` the function asks for `n` more rounds after this one, each time as the
-- last thing that it does, and throws in the last of them.
pub record Fails {ℓ κ μ} {W : Type ℓ} (self : Ref W Looper) (looper_function : LooperFunction W)
    (I : ℕ → W → Type κ) (e : Exception) (J : W → Type μ) : Type (ℓ ⊔ κ ⊔ μ) where
  pub stable : (n : ℕ) (l : Looper) (w : W) → I n w → I n (self.set l w)
  pub step :
      (n : ℕ) (w : W)
      → I (suc n) w
      → (w' : W) × ((next : Action W (Unit {0})) → looper_function next w ≡ next w')
        × I n w'
        × (self.get w' ≡ self.get w)
  pub fails :
      (w : W)
      → I zero w
      → (w' : W) × ((next : Action W (Unit {0})) → looper_function next w ≡ (throw e, w'))
        × J w'
        × (self.get w' ≡ self.get w)

-- In the first round `Start` itself runs the function, in the others the loop does.
abbrev pub left_behind : ℕ → Looper
left_behind zero = idle
left_behind (suc n) = busy

module _ {ℓ κ μ} {W : Type ℓ} (self : Ref W Looper) (looper_function : LooperFunction W)
    (I : ℕ → W → Type κ) (e : Exception) (J : W → Type μ)
    (r : Fails self looper_function I e J) where
  loop-throw :
      (n fuel : ℕ) (w : W)
      → n < fuel
      → I n w
      → self.get w ≡ asked
      → (w' : W) × (loop self looper_function fuel w ≡ (throw e, w')) × J w' × (self.get w' ≡ busy)
  loop-throw n zero w lt i h = absurd (omega arith)
  loop-throw zero (suc f) w lt i h =
      let (w', run, j, frame) = r.fails (self.set busy w) (r.stable zero busy w i) in
      (
        w',
        rw
            (
              loop-asked_lem self looper_function f w h,
              run (enter self (loop self looper_function f)),
            )
            refl,
        j,
        frame ∙ self.get-set busy w,
      )
  loop-throw (suc n) (suc f) w lt i h =
      let (w2, run, i2, frame) = r.step n (self.set busy w) (r.stable (suc n) busy w i) in
      let b : self.get w2 ≡ busy = frame ∙ self.get-set busy w in
      let (w', out, j, q) =
        loop-throw n f (self.set asked w2) (omega arith) (r.stable n asked w2 i2)
          (self.get-set asked w2) in
      (
        w',
        rw
            (
              loop-asked_lem self looper_function f w h,
              run (enter self (loop self looper_function f)),
              enter-asked self looper_function (loop self looper_function f) w2 b,
            )
            out,
        j,
        q,
      )

  -- The exception passes through the closure of `makeNext`, which does not reset the looper.
  enter-throw :
      (l : Action W (Unit {0})) (w w' : W)
      → self.get w ≡ idle
      → l (self.set asked w) ≡ (throw e, w')
      → enter self l w ≡ (throw e, w')
  unfolding enter
  enter-throw l w w' h run = simp (h, self.get-set, self.set-set, run)

  -- What the function throws in round `n + 1` comes out of `Start`. The looper is idle if that is
  -- the first round; otherwise it is left as in a round. More fuel than `n` is enough.
  pub start-throw :
      (n fuel : ℕ) (w : W)
      → n < fuel
      → I n w
      → (w' : W) × ((create self >> start self looper_function fuel) w ≡ (throw e, w'))
        × J w'
        × (self.get w' ≡ left_behind n)
  unfolding start make_next
  start-throw zero fuel w lt i =
      let (w', run, j, frame) = r.fails (self.set idle w) (r.stable zero idle w i) in
      (w', run (make_next self looper_function fuel), j, frame ∙ self.get-set idle w)
  start-throw (suc n) fuel w lt i =
      let (w2, run, i2, frame) = r.step n (self.set idle w) (r.stable (suc n) idle w i) in
      let (w', out, j, q) =
        loop-throw n fuel (self.set asked w2) (omega arith) (r.stable n asked w2 i2)
          (self.get-set asked w2) in
      (
        w',
        run (make_next self looper_function fuel)
            ∙ enter-throw (loop self looper_function fuel) w2 w' (frame ∙ self.get-set idle w) out,
        j,
        q,
      )

-- Calls of `next`, each behind some other action, until one of them throws.
abbrev pub asks_between {ℓ} :
    {W : Type ℓ} → Action W (Unit {0}) → List (Action W (Unit {0})) → Action W (Unit {0})
asks_between next [] = skip
asks_between next (act ∷ acts) = do act; next; asks_between next acts

module _ {ℓ} {W : Type ℓ} (self : Ref W Looper) where
  -- All that is left of `next`: its mark.
  abbrev pub mark : Action W (Unit {0})
  mark = modify self (λ l. record l { next_called = true })

  -- However they end, the actions leave the looper alone.
  abbrev pub AllSpare : List (Action W (Unit {0})) → Type ℓ
  AllSpare [] = Unit
  AllSpare (act ∷ acts) = ((w : W) → self.get (act w).1 ≡ self.get w) × AllSpare acts

  module _ (looper_function : LooperFunction W) (fuel : ℕ) where
    after-stuck :
        (acts : List (Action W (Unit {0}))) (p : Result (Unit {0}) × W)
        → ((w : W)
            → (self.get w).looper_function_returned ≡ false
            → asks_between (make_next self looper_function fuel) acts w ≡ asks_between mark acts w)
        → (self.get p.1).looper_function_returned ≡ false
        → and_then p (λ _.
          make_next self looper_function fuel
          >> asks_between (make_next self looper_function fuel) acts)
          ≡ and_then p (λ _. mark >> asks_between mark acts)
    unfolding make_next
    after-stuck acts (ok u, w) rest stuck =
        rw (enter-busy self (loop self looper_function fuel) w stuck)
          (rest _ (rw self.get-set stuck))
    after-stuck acts (throw x, w) rest stuck = refl
    after-stuck acts (fatal, w) rest stuck = refl
    after-stuck acts (out_of_fuel, w) rest stuck = refl

    asks_between-stuck :
        (acts : List (Action W (Unit {0}))) (w : W)
        → AllSpare acts
        → (self.get w).looper_function_returned ≡ false
        → asks_between (make_next self looper_function fuel) acts w ≡ asks_between mark acts w
    asks_between-stuck [] w spare stuck = refl
    asks_between-stuck (act ∷ acts) w (alone, spare) stuck =
        after-stuck acts (act w) (λ v. asks_between-stuck acts v spare) (rw (alone w) stuck)

module _ {ℓ κ μ} {W : Type ℓ} (self : Ref W Looper) (looper_function : LooperFunction W)
    (I : ℕ → W → Type κ) (e : Exception) (J : W → Type μ)
    (r : Fails self looper_function I e J) where
  -- An exception in the loop stops the looper for good. For a function of which each round leaves
  -- the looper alone, and which asks for `n + 1` more rounds, each time as the last thing that it
  -- does, and throws in the last of them: created and started, the exception comes out of `Start`.
  -- From then on, whatever actions that leave the looper alone come between, every call of `next`
  -- only leaves its mark and returns: the function is never run again. More fuel than `n + 1` is
  -- enough for the start, and any fuel for the later calls.
  pub start-throw-stuck :
      (n fuel later : ℕ) (acts : List (Action W (Unit {0}))) (w : W)
      → suc n < fuel
      → I (suc n) w
      → AllSpare self acts
      → (w' : W) × ((create self >> start self looper_function fuel) w ≡ (throw e, w'))
        × J w'
        × (asks_between (make_next self looper_function later) acts w'
            ≡ asks_between (mark self) acts w')
  start-throw-stuck n fuel later acts w lt i spare =
      let (w', out, j, q) = start-throw self looper_function I e J r (suc n) fuel w lt i in
      (w', out, j, asks_between-stuck self looper_function later acts w' spare (rw q refl))
