-- ===== src/Looper/Endless.antt =====
-- `Looper` (dk_pull/looper/looper.cc) with a function that always asks for the next round.
use dk_pull.Base.{ℕ, zero, suc, ◌≡◌, refl, ◌∙◌}
use dk_pull.Base.Action.{Action, out_of_fuel, ◌>>◌}
use dk_pull.Base.Ref.{Ref}
use dk_pull.Looper.{Looper, idle, create, LooperFunction, enter, loop, make_next, start}
use dk_pull.Looper.Rule.{busy, asked, loop-asked_lem, enter-asked}

-- In each world of `I` the function asks for the next round, as the last thing that it does.
pub record IsEndless {ℓ κ} {W : Type ℓ} (self : Ref W Looper) (looper_function : LooperFunction W)
    (I : W → Type κ) : Type (ℓ ⊔ κ) where
  pub stable : (l : Looper) (w : W) → I w → I (self.set l w)
  pub step :
      (w : W)
      → I w
      → (w' : W) × ((next : Action W (Unit {0})) → looper_function next w ≡ next w')
        × I w'
        × (self.get w' ≡ self.get w)

module _ {ℓ κ} {W : Type ℓ} (self : Ref W Looper) (looper_function : LooperFunction W)
    (I : W → Type κ) (r : IsEndless self looper_function I) where
  loop-endless :
      (fuel : ℕ) (w : W)
      → I w
      → self.get w ≡ asked
      → (w' : W) × (loop self looper_function fuel w ≡ (out_of_fuel, w'))
  unfolding loop
  loop-endless zero w i h = (w, refl)
  loop-endless (suc f) w i h =
      let (w2, run, i2, frame) = r.step (self.set busy w) (r.stable busy w i) in
      let b : self.get w2 ≡ busy = frame ∙ self.get-set busy w in
      let (w', out) =
        loop-endless f (self.set asked w2) (r.stable asked w2 i2) (self.get-set asked w2) in
      (
        w',
        rw
            (
              loop-asked_lem self looper_function f w h,
              run (enter self (loop self looper_function f)),
              enter-asked self looper_function (loop self looper_function f) w2 b,
            )
            out,
      )

  enter-out :
      (l : Action W (Unit {0})) (w w' : W)
      → self.get w ≡ idle
      → l (self.set asked w) ≡ (out_of_fuel, w')
      → enter self l w ≡ (out_of_fuel, w')
  unfolding enter
  enter-out l w w' h run = simp (h, self.get-set, self.set-set, run)

  -- Started, it uses up any fuel.
  pub start-endless :
      (fuel : ℕ) (w : W)
      → I w
      → (w' : W) × ((create self >> start self looper_function fuel) w ≡ (out_of_fuel, w'))
  unfolding start make_next
  start-endless fuel w i =
      let (w2, run, i2, frame) = r.step (self.set idle w) (r.stable idle w i) in
      let quiet : self.get w2 ≡ idle = frame ∙ self.get-set idle w in
      let (w', out) =
        loop-endless fuel (self.set asked w2) (r.stable asked w2 i2) (self.get-set asked w2) in
      (
        w',
        run (make_next self looper_function fuel)
            ∙ enter-out (loop self looper_function fuel) w2 w' quiet out,
      )
