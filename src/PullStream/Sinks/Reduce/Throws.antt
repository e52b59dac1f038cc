-- ===== src/PullStream/Sinks/Reduce/Throws.antt =====
-- A reduction (dk_pull/pull_stream/sinks/reduce.h) whose reducer throws, over a conforming source.
use mathlib.Core.List.{foldl, foldl-append}
use dk_pull.Base.{ℕ, ◌<◌, ◌≡◌, refl, sym, ◌∙◌, ap, List, [], ◌∷◌, ◌++◌, length, Option, some, false}
use dk_pull.Base.Action.{Exception, ok, throw, ◌>>◌}
use dk_pull.Base.Ref.{Ref, Apart}
use dk_pull.Types.EndOrError.{Done}
use dk_pull.Types.Stream.{Source}
use dk_pull.Looper.{Looper}
use dk_pull.Looper.Throws.{left_behind}
use dk_pull.PullStream.Conforming.{Conforming, Leaves}
use dk_pull.PullStream.Sinks.Drain.Throws.{All, Balks, sink-throw}
use dk_pull.PullStream.Sinks.Reduce.Steps.{drain, back, Folded}
use dk_pull.PullStream.Sinks.Reduce.{State, Reduce, create, on_value, sink}

-- The reducer has no effect but that it throws `x` at the value `bad`, and then leaves `left a` of
-- the accumulator `a` that it got a reference to; at fine values it is `f`.
pub record ReducerThrows {ℓ κ τ ο} {W : Type ℓ} {A : Type κ} {T : Type τ} (r : Reduce W A T)
    (f : A → T → A) (Fine : T → Type ο) (bad : T) (x : Exception) (left : A → A)
    : Type (ℓ ⊔ κ ⊔ τ ⊔ ο) where
  pub reduces : (a : A) (v : T) (w : W) → Fine v → r.reducer a v w ≡ (ok (f a v), w)
  pub throws : (a : A) (w : W) → r.reducer a bad w ≡ (throw x, w)
  pub leaves : (a : A) (w : W) → r.reducer_leaves a bad w ≡ left a

module _ {ℓ κ τ μ ο} {W : Type ℓ} {A : Type κ} {T : Type τ} {source : Source W T}
    {Left : List T → W → Type μ} {Closed : W → Type μ} {e : Done}
    {c : Conforming source Left Closed e} {looper : Ref W Looper} {self : Ref W (Option (State A))}
    (looper_apart : Leaves looper c) (self_apart : Leaves self c) (apart : Apart looper self)
    (r : Reduce W A T) {f : A → T → A} {Fine : T → Type ο} {bad : T} {x : Exception} {left : A → A}
    (h : ReducerThrows r f Fine bad x left) (a0 : A) where
  -- What the call that threw left of the accumulator.
  abbrev Spared : List T → W → Type κ
  Spared ys w = self.get w ≡ back r (left (foldl f a0 ys))

  visit_fine :
      (ys : List T) (v : T) (xs : List T) (w : W)
      → Fine v
      → Folded r f a0 ys (self.get w)
      → Left xs w
      → (w' : W) × (on_value r self v w ≡ (ok tt, w'))
        × Folded r f a0 (ys ++ v ∷ []) (self.get w')
        × Left xs w'
        × (looper.get w' ≡ looper.get w)
  unfolding on_value
  visit_fine ys v xs w fine seen open_ =
      let a = foldl f a0 ys in
      let w1 = self.set (back r (r.reducer_leaves a v w)) w in
      (
        self.set (back r (f a v)) w1,
        rw seen (rw (h.reduces a v w1 fine) refl),
        self.get-set (back r (f a v)) w1 ∙ ap (back r) (sym (foldl-append f a0 ys (v ∷ []))),
        self_apart.set_left xs _ w1 (self_apart.set_left xs _ w open_),
        apart.get-set_left _ w1 ∙ apart.get-set_left _ w,
      )

  visit_bad :
      (ys xs : List T) (w : W)
      → Folded r f a0 ys (self.get w)
      → Left xs w
      → (w' : W) × (on_value r self bad w ≡ (throw x, w'))
        × Spared ys w'
        × Left xs w'
        × (looper.get w' ≡ looper.get w)
  unfolding on_value
  visit_bad ys xs w seen open_ =
      let a = foldl f a0 ys in
      let w1 = self.set (back r (r.reducer_leaves a bad w)) w in
      (
        w1,
        rw seen (rw (h.throws a w1) refl),
        self.get-set _ w ∙ ap (back r) (h.leaves a w),
        self_apart.set_left xs _ w open_,
        apart.get-set_left _ w,
      )

  reduce-Balks :
      Balks c looper (drain r self) Fine bad x (λ ys w. Folded r f a0 ys (self.get w)) Spared
  reduce-Balks = record {
    value = visit_fine;
    balks = visit_bad;
    seen_looper = λ ys l w seen. apart.get-set_right l w ∙ seen;
    seen_advance = λ ys v xs w open_ seen. self_apart.get_advance v xs w open_ ∙ seen;
  }

  -- Where the reducer throws at some value, and has no effect at the values before it, the
  -- exception comes out of the call of the sink, and the source still has the values behind that
  -- value. Of the accumulator of the values before it the object keeps what the reducer leaves when
  -- it throws, which is all of it if the reducer throws before it takes the accumulator. The
  -- callback's behaviour does not matter; the source leaves the looper and the reduction alone. More
  -- fuel than there are values before it is enough.
  pub reducer-throw :
      (before rest : List T) (fuel : ℕ) (w : W)
      → length before < fuel
      → All Fine before
      → Left (before ++ bad ∷ rest) w
      → (w' : W) × ((create self a0 >> sink r self looper fuel source) w ≡ (throw x, w'))
        × (self.get w' ≡ back r (left (foldl f a0 before)))
        × Left rest w'
        × (looper.get w' ≡ left_behind (length before))
  unfolding sink
  reducer-throw before rest fuel w lt fine open_ =
      let all = before ++ bad ∷ rest in
      let w1 = self.set (some (record { has_drain = false; accumulator = a0 })) w in
      let w2 = self.set (back r a0) w1 in
      let (w', run, spared, left', l) =
        sink-throw looper_apart (drain r self) reduce-Balks before rest fuel w2 lt fine
          (self.get-set (back r a0) w1)
          (self_apart.set_left all _ w1 (self_apart.set_left all _ w open_)) in
      (w', rw self.get-set run, spared, left', l)
