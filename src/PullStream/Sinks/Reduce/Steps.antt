-- ===== src/PullStream/Sinks/Reduce/Steps.antt =====
-- The two functions that a reduction (dk_pull/pull_stream/sinks/reduce.h) gives to its drain.
use mathlib.Core.List.{foldl, foldl-append}
use dk_pull.Base.{◌≡◌, refl, sym, ◌∙◌, ap, List, [], ◌∷◌, ◌++◌, Option, some, true}
use dk_pull.Base.Action.{ok}
use dk_pull.Base.Ref.{Ref, Apart}
use dk_pull.Types.EndOrError.{Done}
use dk_pull.Types.Stream.{invoke}
use dk_pull.Looper.{Looper}
use dk_pull.PullStream.Sinks.Drain
use dk_pull.PullStream.Sinks.Drain.{Drain}
use dk_pull.PullStream.Sinks.Reduce.{State, Reduce, remains, on_value, on_done}

-- The drain that a reduction uses.
abbrev pub drain {ℓ κ τ} :
    {W : Type ℓ} {A : Type κ} {T : Type τ} → Reduce W A T → Ref W (Option (State A)) → Drain W T
drain r self = Drain.create (some (on_value r self)) (some (on_done r self))

-- What a reduction into `f` needs: a reducer with no effect, and a callback that returns normally
-- and leaves the looper alone. `Reported a w`: the callback has been given the accumulator `a`.
pub record Reduces {ℓ κ τ μ ν} {W : Type ℓ} {A : Type κ} {T : Type τ} (r : Reduce W A T)
    (f : A → T → A) (looper : Ref W Looper) (Closed : W → Type μ) (e : Done)
    (Reported : A → W → Type ν) : Type (ℓ ⊔ κ ⊔ τ ⊔ μ ⊔ ν) where
  pub pure_reducer : (a : A) (v : T) (w : W) → r.reducer a v w ≡ (ok (f a v), w)
  pub report :
      (a : A) (w : W)
      → Closed w
      → (w' : W) × (invoke r.callback e a w ≡ (ok tt, w'))
        × Reported a w'
        × (looper.get w' ≡ looper.get w)
  pub reported_looper : (a : A) (l : Looper) (w : W) → Reported a w → Reported a (looper.set l w)

module _ {ℓ κ τ} {W : Type ℓ} {A : Type κ} {T : Type τ} (r : Reduce W A T) where
  -- The object while it is in use, with its accumulator.
  abbrev pub back : A → Option (State A)
  back a = some (record { has_drain = true; accumulator = a })

  module _ (f : A → T → A) where
    abbrev pub Folded : A → List T → Option (State A) → Type κ
    Folded a0 ys s = s ≡ back (foldl f a0 ys)

    abbrev pub Told {ν} : (A → W → Type ν) → A → List T → W → Type ν
    Told Reported a0 ys w = Reported (foldl f a0 ys) w

module _ {ℓ κ τ μ ν} {W : Type ℓ} {A : Type κ} {T : Type τ} {Left : List T → W → Type μ}
    {Closed : W → Type μ} {e : Done} {looper : Ref W Looper} {self : Ref W (Option (State A))}
    (r : Reduce W A T) {f : A → T → A} {Reported : A → W → Type ν}
    (h : Reduces r f looper Closed e Reported) (apart : Apart looper self)
    (keeps_left : (xs : List T) (s : Option (State A)) (w : W) → Left xs w → Left xs (self.set s w))
    (keeps_closed : (s : Option (State A)) (w : W) → Closed w → Closed (self.set s w))
    (a0 : A) where
  pub visit :
      (ys : List T) (x : T) (xs : List T) (w : W)
      → Folded r f a0 ys (self.get w)
      → Left xs w
      → (w' : W) × (on_value r self x w ≡ (ok tt, w'))
        × Folded r f a0 (ys ++ x ∷ []) (self.get w')
        × Left xs w'
        × (looper.get w' ≡ looper.get w)
  unfolding on_value
  visit ys x xs w seen left =
      let a = foldl f a0 ys in
      let w1 = self.set (back r (r.reducer_leaves a x w)) w in
      (
        self.set (back r (f a x)) w1,
        rw seen (rw (h.pure_reducer a x w1) refl),
        self.get-set (back r (f a x)) w1 ∙ ap (back r) (sym (foldl-append f a0 ys (x ∷ []))),
        keeps_left xs _ w1 (keeps_left xs _ w left),
        apart.get-set_left _ w1 ∙ apart.get-set_left _ w,
      )

  pub tell :
      (ys : List T) (w : W)
      → Folded r f a0 ys (self.get w)
      → Closed w
      → (w' : W) × (on_done r self e w ≡ (ok tt, w'))
        × Told r f Reported a0 ys w'
        × (looper.get w' ≡ looper.get w)
  unfolding on_done
  tell ys w seen closed =
      let a = foldl f a0 ys in
      let w1 = self.set (back r (remains r.callback r.callback_leaves e a w)) w in
      let (w2, run, told, same) = h.report a w1 (keeps_closed _ w closed) in
      (w2, rw seen run, told, same ∙ apart.get-set_left _ w)
