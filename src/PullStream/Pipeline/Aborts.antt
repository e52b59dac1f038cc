-- ===== src/PullStream/Pipeline/Aborts.antt =====
-- A client that takes some values of a source and then aborts, behind the protocol checker's
-- `Through` (dk_pull/pull_stream/protocol_checker.h).
use dk_pull.Base.{
  ℕ, zero, suc, ◌≤◌, ◌≡◌, refl, ◌∙◌, true, false, not, ◌&&◌, List, [], ◌∷◌, ◌++◌, append_assoc,
  append-nil, length, take, drop, some, arith, if◌then◌else◌,
}
use dk_pull.Base.Action.{Action, ok, ◌>>◌}
use dk_pull.Base.Ref.{Ref}
use dk_pull.Types.EndOrError.{Abort, Done, going, to_bool}
use dk_pull.Types.Stream.{Source, SourceCallback}
use dk_pull.PullStream.Conforming.{Conforming, Leaves, Abortable}
use dk_pull.PullStream.ProtocolChecker.{ProtocolChecker, terminate}
use dk_pull.PullStream.ProtocolChecker.InOrder.{
  asked, answered, check_callback-open, get_or-append_self,
}
use dk_pull.PullStream.ProtocolChecker.Wrap.{through}
use dk_pull.PullStream.ProtocolChecker.Transparent.{
  IsDone, Checked, through-open, through-Conforming,
}
use dk_pull.PullStream.Pipeline.{terminate-IsDone}

-- The client: so many requests for a value, each behind the answer to the last one, and an abort.
abbrev pub take_some {ℓ κ} :
    {W : Type ℓ} {T : Type κ}
    → ℕ
    → Abort
    → (T → Action W (Unit {0}))
    → SourceCallback W T
    → Source W T
    → Action W (Unit {0})
take_some zero abort on_value on_end source = source abort (some on_end)
take_some (suc k) abort on_value on_end source = source going (
    some (λ done v.
      if to_bool done
      then on_end done v
      else (on_value v >> take_some k abort on_value on_end source)))

-- What the client's function for values does. `Seen ys w`: it has been given the values `ys`. It
-- returns, and it leaves the source and the checker alone.
pub record Reads {ℓ κ μ ν} {W : Type ℓ} {T : Type κ} {source : Source W T}
    {Left : List T → W → Type μ} {Closed : W → Type μ} {e : Done}
    (c : Conforming source Left Closed e) (checker : Ref W ProtocolChecker)
    (on_value : T → Action W (Unit {0})) (Seen : List T → W → Type ν) : Type (ℓ ⊔ κ ⊔ μ ⊔ ν) where
  pub value :
      (ys : List T) (x : T) (xs : List T) (w : W)
      → Seen ys w
      → Left xs w
      → (w' : W) × (on_value x w ≡ (ok tt, w'))
        × Seen (ys ++ x ∷ []) w'
        × Left xs w'
        × (checker.get w' ≡ checker.get w)
  pub seen_checker :
      (ys : List T) (s : ProtocolChecker) (w : W) → Seen ys w → Seen ys (checker.set s w)
  pub seen_advance :
      (ys : List T) (x : T) (xs : List T) (w : W)
      → Left (x ∷ xs) w
      → Seen ys w
      → Seen ys (c.advance w)

module _ {ℓ κ μ ν} {W : Type ℓ} {T : Type κ} {source : Source W T} {Left : List T → W → Type μ}
    {Closed : W → Type μ} {e : Done} {c : Conforming source Left Closed e} (a : Abortable source)
    (checker : Ref W ProtocolChecker) (leaves : Leaves checker c)
    {on_value : T → Action W (Unit {0})} {Seen : List T → W → Type ν}
    (r : Reads c checker on_value Seen) (abort : Abort) (is_abort : to_bool abort ≡ true)
    (on_end : SourceCallback W T) where
  -- The world in which the client is told the end: it has seen `ys`, the source has `xs` left, and
  -- the checker has nothing to report.
  abbrev Stopped : List T → List T → W → Type (μ ⊔ ν)
  Stopped ys xs w = Seen ys w × Left xs w × (terminate (checker.get w) ≡ (ok [], checker.get w))

  abort-Stopped :
      (ys xs : List T) (w : W)
      → Seen ys w
      → Checked checker leaves xs w
      → (w' : W) × (through checker source abort (some on_end) w ≡ on_end abort a.default w')
        × Stopped ys xs w'
  abort-Stopped ys xs w seen (left, o) =
      let s = checker.get w in
      let s1 = asked abort s in
      let s2 = answered s.i (length s.counters) abort s1 in
      let w1 = checker.set s1 w in
      let w2 = checker.set s2 w1 in
      let done : IsDone abort s2 = record {
        is_done = refl;
        in_order = refl;
        room = omega (arith, o.room);
        clean = o.clean;
      } in
      let fine : (not (to_bool abort) && to_bool s1.aborted) ≡ false = rw is_abort refl in
      (
        w2,
        through-open checker source abort on_end w o.not_aborted o.not_done (omega (arith, o.room))
            ∙ a.answers abort is_abort w1 _
            ∙ rw
                (
                  checker.get-set,
                  check_callback-open s.i (length s.counters) abort s1 o.not_done fine
                      (get_or-append_self s.counters 0 0) o.in_order (omega (arith, o.room)),
                )
                refl,
        (
          r.seen_checker ys s2 w1 (r.seen_checker ys s1 w seen),
          leaves.set_left xs s2 w1 (leaves.set_left xs s1 w left),
          rw checker.get-set (terminate-IsDone abort s2 is_abort done),
        ),
      )

  from-Stopped :
      (ys : List T) (k : ℕ) (xs : List T) (w : W)
      → k ≤ length xs
      → Seen ys w
      → Checked checker leaves xs w
      → (w' : W) × (take_some k abort on_value on_end (through checker source) w
          ≡ on_end abort a.default w')
        × Stopped (ys ++ take k xs) (drop k xs) w'
  unfolding through-Conforming
  from-Stopped ys zero xs w le seen h =
      let (w', run, stopped) = abort-Stopped ys xs w seen h in (w', run, rw (append-nil ys) stopped)
  from-Stopped ys (suc k) [] w le seen h = absurd (omega arith)
  from-Stopped ys (suc k) (x ∷ xs) w le seen h =
      let t = through-Conforming checker leaves in
      let w1 = t.advance w in
      let (left, o) = t.give_left x xs w h in
      let seen1 = r.seen_checker ys _ _ (
        r.seen_advance ys x xs _ (leaves.set_left (x ∷ xs) _ w h.0) (r.seen_checker ys _ w seen)) in
      let (w2, run, seen2, left2, same) = r.value ys x xs w1 seen1 left in
      let (w', rest, stopped) =
        from-Stopped (ys ++ x ∷ []) k xs w2 (omega arith) seen2 (left2, rw same o) in
      (w', t.give x xs w _ h ∙ rw run rest, (rw (append_assoc ys (x ∷ []) (take k xs)) at stopped))

  -- Giving up in the middle: behind a checker on an open stream, the client of a conforming source
  -- that can be aborted and that leaves the checker alone, which asks for `k` of the values, with a
  -- function for values that returns and leaves the source and the checker alone, and then aborts,
  -- has been given the first `k` values, once and in order; it is told the very abort that it asked for, in a world in which
  -- the source has all the other values left and the checker has nothing to report.
  pub take_some-Stopped :
      (k : ℕ) (xs : List T) (w : W)
      → k ≤ length xs
      → Seen [] w
      → Checked checker leaves xs w
      → (w' : W) × (take_some k abort on_value on_end (through checker source) w
          ≡ on_end abort a.default w')
        × Seen (take k xs) w'
        × Left (drop k xs) w'
        × (terminate (checker.get w') ≡ (ok [], checker.get w'))
  take_some-Stopped k xs w le seen h =
      let (w', run, (seen', left', clean)) = from-Stopped [] k xs w le seen h in
      (w', run, seen', left', clean)
