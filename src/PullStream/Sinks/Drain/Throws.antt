-- ===== src/PullStream/Sinks/Drain/Throws.antt =====
-- A drain (dk_pull/pull_stream/sinks/drain.h) whose function for values throws, of a conforming
-- source.
use dk_pull.Base.{
  ℕ, zero, suc, ◌<◌, ◌≡◌, refl, sym, ◌∙◌, List, [], ◌∷◌, ◌++◌, append_assoc, append-nil, length,
  arith,
}
use dk_pull.Base.Action.{Action, Exception, ok, throw}
use dk_pull.Base.Ref.{Ref}
use dk_pull.Types.EndOrError.{Done}
use dk_pull.Types.Stream.{Source}
use dk_pull.Looper.{Looper}
use dk_pull.Looper.Throws.{Fails, left_behind, start-throw}
use dk_pull.PullStream.Conforming.{Conforming, Leaves}
use dk_pull.PullStream.Sinks.Drain.{Drain, request, sink}

abbrev pub All {ℓ κ} : {T : Type ℓ} → (T → Type κ) → List T → Type κ
All P [] = Unit
All P (x ∷ xs) = P x × All P xs

-- What the function for values does. `Seen ys w`: it has been given `ys`, which are all fine, and
-- has returned each time. At the value `bad` it throws `x`, and leaves `Broken ys` of what it has
-- been given before.
pub record Balks {ℓ κ μ ν ξ ο} {W : Type ℓ} {T : Type κ} {source : Source W T}
    {Left : List T → W → Type μ} {Closed : W → Type μ} {e : Done}
    (c : Conforming source Left Closed e) (looper : Ref W Looper) (self : Drain W T)
    (Fine : T → Type ο) (bad : T) (x : Exception) (Seen : List T → W → Type ν)
    (Broken : List T → W → Type ξ) : Type (ℓ ⊔ κ ⊔ μ ⊔ ν ⊔ ξ ⊔ ο) where
  pub value :
      (ys : List T) (v : T) (xs : List T) (w : W)
      → Fine v
      → Seen ys w
      → Left xs w
      → (w' : W) × (self.on_value v w ≡ (ok tt, w'))
        × Seen (ys ++ v ∷ []) w'
        × Left xs w'
        × (looper.get w' ≡ looper.get w)
  pub balks :
      (ys xs : List T) (w : W)
      → Seen ys w
      → Left xs w
      → (w' : W) × (self.on_value bad w ≡ (throw x, w'))
        × Broken ys w'
        × Left xs w'
        × (looper.get w' ≡ looper.get w)
  pub seen_looper : (ys : List T) (l : Looper) (w : W) → Seen ys w → Seen ys (looper.set l w)
  pub seen_advance :
      (ys : List T) (v : T) (xs : List T) (w : W)
      → Left (v ∷ xs) w
      → Seen ys w
      → Seen ys (c.advance w)

module _ {ℓ κ μ ν ξ ο} {W : Type ℓ} {T : Type κ} {source : Source W T} {Left : List T → W → Type μ}
    {Closed : W → Type μ} {e : Done} {c : Conforming source Left Closed e} {looper : Ref W Looper}
    (apart : Leaves looper c) (self : Drain W T) {Fine : T → Type ο} {bad : T} {x : Exception}
    {Seen : List T → W → Type ν} {Broken : List T → W → Type ξ}
    (u : Balks c looper self Fine bad x Seen Broken) (before rest : List T) where
  -- `n` fine values are still to come, and then the bad one.
  abbrev Pending : ℕ → W → Type (κ ⊔ μ ⊔ ν ⊔ ο)
  Pending n w =
      (ys : List T) × (xs : List T) × (ys ++ xs ≡ before)
      × (length xs ≡ n)
      × All Fine xs
      × Seen ys w
      × Left (xs ++ bad ∷ rest) w

  abbrev Stopped : W → Type (κ ⊔ μ ⊔ ξ)
  Stopped w = (ys : List T) × (ys ≡ before) × Broken ys w × Left rest w

  round :
      (n : ℕ) (w : W)
      → Pending (suc n) w
      → (w' : W) × ((next : Action W (Unit {0})) → request self source next w ≡ next w')
        × Pending n w'
        × (looper.get w' ≡ looper.get w)
  unfolding request
  round n w (ys, [], split, len, fine, seen, left) = absurd (omega arith)
  round n w (ys, v ∷ xs, split, len, fine, seen, left) =
      let w1 = c.advance w in
      let (w2, run, seen2, left2, same) =
        u.value ys v (xs ++ bad ∷ rest) w1 fine.0
          (u.seen_advance ys v (xs ++ bad ∷ rest) w left seen)
          (c.give_left v (xs ++ bad ∷ rest) w left) in
      (
        w2,
        λ next. c.give v (xs ++ bad ∷ rest) w _ left ∙ rw run refl,
        (ys ++ v ∷ [], xs, append_assoc ys (v ∷ []) xs ∙ split, omega arith, fine.1, seen2, left2),
        same ∙ apart.get_advance v (xs ++ bad ∷ rest) w left,
      )

  bad_round :
      (w : W)
      → Pending zero w
      → (w' : W) × ((next : Action W (Unit {0})) → request self source next w ≡ (throw x, w'))
        × Stopped w'
        × (looper.get w' ≡ looper.get w)
  unfolding request
  bad_round w (ys, v ∷ xs, split, len, fine, seen, left) = absurd (omega arith)
  bad_round w (ys, [], split, len, fine, seen, left) =
      let w1 = c.advance w in
      let (w2, run, broken, left2, same) =
        u.balks ys rest w1 (u.seen_advance ys bad rest w left seen) (c.give_left bad rest w left) in
      (
        w2,
        λ next. c.give bad rest w _ left ∙ rw run refl,
        (ys, sym (append-nil ys) ∙ split, broken, left2),
        same ∙ apart.get_advance bad rest w left,
      )

  drain-Fails : Fails looper (request self source) Pending x Stopped
  drain-Fails = record {
    stable = λ n l w (ys, xs, split, len, fine, seen, left). (
      ys,
      xs,
      split,
      len,
      fine,
      u.seen_looper ys l w seen,
      apart.set_left (xs ++ bad ∷ rest) l w left,
    );
    step = round;
    fails = bad_round;
  }

  -- A drain of a conforming source, whose function for values throws at some value: the function
  -- has been given the values before it, each once and in order, the exception comes out of the
  -- call of the sink, the source still has the values behind it, and the looper is idle if it was
  -- the first value, otherwise left as in a round. More fuel than there are values before it is
  -- enough.
  pub sink-throw :
      (fuel : ℕ) (w : W)
      → length before < fuel
      → All Fine before
      → Seen [] w
      → Left (before ++ bad ∷ rest) w
      → (w' : W) × (sink self looper fuel source w ≡ (throw x, w'))
        × Broken before w'
        × Left rest w'
        × (looper.get w' ≡ left_behind (length before))
  unfolding sink
  sink-throw fuel w lt fine seen left =
      let (w', run, (ys, same, broken, left'), l) =
        start-throw looper (request self source) Pending x Stopped drain-Fails (length before) fuel
          w lt ([], before, refl, refl, fine, seen, left) in
      (w', run, rw same at broken, left', l)
