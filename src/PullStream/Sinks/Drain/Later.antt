-- ===== src/PullStream/Sinks/Drain/Later.antt =====
-- A drain (dk_pull/pull_stream/sinks/drain.h) of a source that may answer later.
use dk_pull.Base.{
  ℕ, suc, ◌≤◌, ◌<◌, ◌≡◌, refl, sym, ◌∙◌, ap, List, [], ◌∷◌, ◌++◌, append_assoc, append-nil, length,
  some,
}
use dk_pull.Base.Action.{Action, ok, ◌>>◌}
use dk_pull.Base.Ref.{Ref, Apart}
use dk_pull.Types.EndOrError.{Done, going}
use dk_pull.Types.Stream.{Source, SourceCallback}
use dk_pull.Looper.{Looper, LooperFunction, idle}
use dk_pull.Looper.Deferred.{Turn, asks, stops, Round, turns, parks, Defers, resume, start-deferred}
use dk_pull.PullStream.Deferring.{Reply, gives, ends, answers, waits, Deferring, Spares}
use dk_pull.PullStream.Sinks.Drain.{Drain, on_answer, request, sink}

-- The source leaves the looper alone, and what the drain's functions keep at `seen`.
abbrev pub Leaving {ℓ κ} : {W : Type ℓ} {X : Type κ} → Ref W Looper → Ref W X → W → W → Type κ
Leaving looper seen w w' = (looper.get w' ≡ looper.get w) × (seen.get w' ≡ seen.get w)

-- What the two functions of a drain do. `Seen ys s`: they have been given the values `ys`. `Told ys
-- w`: they have been given `ys` and then the end. They return normally, leave the looper and the
-- source alone, and make no request of their own.
pub record Watches {ℓ κ μ ν ξ χ} {W : Type ℓ} {T : Type κ} {X : Type χ} (self : Drain W T)
    (looper : Ref W Looper) (seen : Ref W X) (Left Waits : List T → W → Type μ)
    (Closed : W → Type μ) (e : Done) (Seen : List T → X → Type ν) (Told : List T → W → Type ξ)
    : Type (ℓ ⊔ κ ⊔ μ ⊔ ν ⊔ ξ ⊔ χ) where
  pub value :
      (ys : List T) (x : T) (xs : List T) (w : W)
      → Seen ys (seen.get w)
      → Left xs w
      → (w' : W) × (self.on_value x w ≡ (ok tt, w'))
        × Seen (ys ++ x ∷ []) (seen.get w')
        × Left xs w'
        × (looper.get w' ≡ looper.get w)
  pub done :
      (ys : List T) (w : W)
      → Seen ys (seen.get w)
      → Closed w
      → (w' : W) × (self.on_done e w ≡ (ok tt, w')) × Told ys w' × (looper.get w' ≡ looper.get w)
  pub apart : Apart looper seen
  pub told_looper : (ys : List T) (l : Looper) (w : W) → Told ys w → Told ys (looper.set l w)
  pub spares : Spares looper Left Waits Closed

-- The later end of a round: the source calls the callback of the last request.
abbrev pub delivery {ℓ κ} :
    {W : Type ℓ} {T : Type κ}
    → (SourceCallback W T → Action W (Unit {0}))
    → Drain W T
    → LooperFunction W
delivery deliver self next = deliver (on_answer self next)

module _ {ℓ κ μ ν ξ χ} {W : Type ℓ} {T : Type κ} {X : Type χ} {source : Source W T}
    {deliver : SourceCallback W T → Action W (Unit {0})} {Left Waits : List T → W → Type μ}
    {Closed : W → Type μ} {e : Done} {looper : Ref W Looper} {seen : Ref W X}
    (c : Deferring source deliver Left Waits Closed (Leaving looper seen) e) (self : Drain W T)
    {Seen : List T → X → Type ν} {Told : List T → W → Type ξ}
    (u : Watches self looper seen Left Waits Closed e Seen Told) (all : List T) where
  abbrev Pending : (List T → W → Type μ) → ℕ → W → Type (κ ⊔ μ ⊔ ν)
  Pending Here n w =
      (ys : List T) × (xs : List T) × (ys ++ xs ≡ all)
      × (length xs ≡ n)
      × Seen ys (seen.get w)
      × Here xs w

  abbrev Over : W → Type (κ ⊔ ξ)
  Over w = (ys : List T) × (ys ≡ all) × Told ys w

  -- A reply, now or later, ends a round.
  Reply-Turn :
      (act : SourceCallback W T → Action W (Unit {0})) (n : ℕ) (w : W) (ys xs : List T)
      → ys ++ xs ≡ all
      → length xs ≡ n
      → Seen ys (seen.get w)
      → Reply act Left Closed (Leaving looper seen) e xs w
      → Turn looper (λ next. act (on_answer self next)) (Pending Left) Over n w
  Reply-Turn act n w ys xs split len s (gives x rest w1 shape calls left (frame, kept)) =
      let (w2, run, s2, left2, same) = u.value ys x rest w1 (rw kept s) left in
      asks (length rest) w2 (sym len ∙ ap length shape)
        (λ next. calls (on_answer self next) ∙ rw run refl)
        (
          ys ++ x ∷ [],
          rest,
          append_assoc ys (x ∷ []) rest ∙ ap (λ l. ys ++ l) (sym shape) ∙ split,
          refl,
          s2,
          left2,
        )
        (same ∙ frame)
  Reply-Turn act n w ys xs split len s (ends v w1 shape calls closed (frame, kept)) =
      let (w2, run, told, same) = u.done ys w1 (rw kept s) closed in
      stops w2 (sym len ∙ ap length shape) (λ next. calls (on_answer self next) ∙ rw (c.over) run)
        (ys, sym (append-nil ys) ∙ ap (λ l. ys ++ l) (sym shape) ∙ split, told) (same ∙ frame)

  request-Round :
      (n : ℕ) (w : W)
      → Pending Left n w
      → Round looper (request self source) (Pending Left) (Pending Waits) Over n w
  unfolding request
  request-Round n w (ys, xs, split, len, s, left) = elim (c.request xs w left) [
    | answers a ↦ turns (Reply-Turn (λ cb. source going (some cb)) n w ys xs split len s a)
    | waits w1 run kept_cb (frame, kept) ↦
        parks w1 (λ next. run (on_answer self next)) (ys, xs, split, len, rw kept s, kept_cb) frame
  ]

  drain-Defers :
      Defers looper
        (request self source)
        (delivery deliver self)
        (Pending Left)
        (Pending Waits)
        Over
  drain-Defers = record {
    stable = λ n l w (ys, xs, split, len, s, left).
        (ys, xs, split, len, rw (u.apart.get-set_right l w) s, u.spares.left xs l w left);
    stable_parked = λ n l w (ys, xs, split, len, s, left).
        (ys, xs, split, len, rw (u.apart.get-set_right l w) s, u.spares.waits xs l w left);
    stable_end = λ l w (ys, same, told). (ys, same, u.told_looper ys l w told);
    round = request-Round;
    wake = λ n w (ys, xs, split, len, s, kept).
        Reply-Turn deliver n w ys xs split len s (c.reply xs w kept);
  }

  -- A drain of a source that answers each request at once or later, in any pattern, with functions
  -- that return and leave the looper and the source alone: after the sink has returned and the
  -- source has made each of its later calls, of which there are at most one for each value and one
  -- for the end, every value has been visited once and in order, the end has been told once, and
  -- the looper is idle. More fuel than there are values is enough.
  pub sink_later :
      (fuel : ℕ) (w : W)
      → length all < fuel
      → Seen [] (seen.get w)
      → Left all w
      → (k : ℕ) × (k ≤ suc (length all))
        × (w' : W) × ((sink self looper fuel source
                >> resume looper (request self source) (delivery deliver self) fuel k)
              w
            ≡ (ok tt, w'))
        × Told all w'
        × (looper.get w' ≡ idle)
  unfolding sink
  sink_later fuel w lt s left =
      let (k, few, w', run, (ys, same, told), quiet) =
        start-deferred looper (request self source) (delivery deliver self) (Pending Left)
          (Pending Waits) Over drain-Defers (length all) fuel w lt ([], all, refl, refl, s, left) in
      (k, few, w', run, rw same at told, quiet)
