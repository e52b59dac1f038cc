-- ===== src/PullStream/ProtocolChecker/Carried.antt =====
-- `Through` (dk_pull/pull_stream/protocol_checker.h) around any source of any world, against the
-- steps of a run.
use dk_pull.Base.{
  ℕ, ◌≡◌, refl, sym, ap, ◌∙◌, true, some, [], ◌∷◌, ◌++◌, not, ◌&&◌, ◌||◌, ltb, if◌then◌else◌,
}
use dk_pull.Base.Action.{
  Action, Exception, Result, ok, throw, fatal, out_of_fuel, pure, and_then, and_then-ok, ◌>>=◌,
  ◌>>◌,
}
use dk_pull.Base.Ref.{Ref, zoom, zoom-then, and_then-ext}
use dk_pull.Types.EndOrError.{Abort, Done, to_bool}
use dk_pull.Types.Stream.{Source, SourceCallback}
use dk_pull.PullStream.ProtocolChecker.{
  when, notify, returned_after_termination, invoked_again, bump_counter, check_order, record_done,
  ProtocolChecker, Method, check_request, take_number, new_counter, check_callback,
}
use dk_pull.PullStream.ProtocolChecker.Wrap.{wrapped, through}
use dk_pull.PullStream.ProtocolChecker.Protocol.{request}
use dk_pull.PullStream.ProtocolChecker.Trace.{Closure, Trace, the_checker, call, issue, step}

-- A request with a callback up to the call of the source, and the closure that it makes.
abbrev begin : Abort → Method Closure
begin abort = do
  check_request abort
  i ← take_number abort
  counter ← new_counter
  pure (record { i = i; counter = counter })

-- Its parts, one after the other, on the world.
begin-parts {ℓ κ} :
    {W : Type ℓ} {B : Type κ} (r : Ref W ProtocolChecker) (abort : Abort) (k : Closure → Action W B)
    (w : W)
    → (zoom r (begin abort) >>= k) w
      ≡ (do
        zoom r (check_request abort)
        i ← zoom r (take_number abort)
        counter ← zoom r new_counter
        k (record { i = i; counter = counter }))
          w
begin-parts r abort k w =
    zoom-then r (check_request abort) _ k w
    ∙ and_then-ext (zoom r (check_request abort) w) _ _ (λ _ w1.
      zoom-then r (take_number abort) _ k w1
      ∙ and_then-ext (zoom r (take_number abort) w1) _ _ (λ i w2.
        zoom-then r new_counter (λ counter. pure (record { i = i; counter = counter })) k w2
        ∙ and_then-ext (zoom r new_counter w2) _ _ (λ counter w3. rw r.set-get refl)))

abbrev issue_some : Closure → Action Trace (Unit {0})
issue_some c = issue (some c)

step-begin :
    (abort : Abort) (t : Trace)
    → (zoom the_checker (begin abort) >>= issue_some) t ≡ step (request abort true) t
unfolding step
step-begin abort t = begin-parts the_checker abort issue_some t

-- What the world's call and the run's step have in common: the result of the method `m`.
same_throw {ℓ κ λ'} :
    {W : Type ℓ} {A : Type κ} {B : Type λ'} (self : Ref W ProtocolChecker)
    (p : Result A × ProtocolChecker) (k : A → Action W B) (l : A → Trace → Trace) (w : W)
    (t t' : Trace) (e : Exception)
    → ◌≡◌ {A = Result (Unit {0}) × Trace}
        (and_then (p.0, record t { checker = p.1 }) (λ a u. (ok tt, l a u)))
        (throw e, t')
    → and_then (p.0, self.set p.1 w) k ≡ (throw e, self.set t'.checker w)
same_throw self (ok a, s) k l w t t' e h = absurd (cc)
same_throw self (throw x, s) k l w t t' e h = cc
same_throw self (fatal, s) k l w t t' e h = absurd (cc)
same_throw self (out_of_fuel, s) k l w t t' e h = absurd (cc)

same_ok {ℓ κ λ'} :
    {W : Type ℓ} {A : Type κ} {B : Type λ'} (self : Ref W ProtocolChecker)
    (p : Result A × ProtocolChecker) (k : A → Action W B) (l : A → Trace → Trace) (w : W)
    (t t' : Trace)
    → ◌≡◌ {A = Result (Unit {0}) × Trace}
        (and_then (p.0, record t { checker = p.1 }) (λ a u. (ok tt, l a u)))
        (ok tt, t')
    → (a : A) × (s : ProtocolChecker) × (p ≡ (ok a, s))
      × (t' ≡ l a (record t { checker = s }))
      × (and_then (p.0, self.set p.1 w) k ≡ k a (self.set s w))
same_ok self (ok a, s) k l w t t' h = (a, s, refl, cc, refl)
same_ok self (throw x, s) k l w t t' h = absurd (cc)
same_ok self (fatal, s) k l w t t' h = absurd (cc)
same_ok self (out_of_fuel, s) k l w t t' h = absurd (cc)

abbrev add : Closure → Trace → Trace
add c t = record t { issued = t.issued ++ some c ∷ [] }

abbrev keep : Done → Trace → Trace
keep d t = t

-- The end that a callback's checks return is the one that is recorded.
GivesDone : Method Done → Type 0
GivesDone m = (s s' : ProtocolChecker) (d : Done) → m s ≡ (ok d, s') → d ≡ s'.done

then-GivesDone {κ} :
    {A : Type κ} (m : Method A) (k : A → Method Done)
    → ((a : A) → GivesDone (k a))
    → GivesDone (m >>= k)
unfolding GivesDone
then-GivesDone m k h s s' d e = let (a, w, ran, rest) = and_then-ok (m s) k e in h a w s' d rest

record_done-GivesDone : (done : Done) → GivesDone (record_done done)
unfolding GivesDone record_done
record_done-GivesDone done s s' d e =
    let first : d ≡ (if to_bool s.done then s.done else done) = cc in first ∙ ap (λ p. p.1.done) e

check_callback-GivesDone : (i counter : ℕ) (done : Done) → GivesDone (check_callback i counter done)
unfolding GivesDone check_callback
check_callback-GivesDone i counter done s s' d e =
    then-GivesDone
      (when (not (to_bool done) && (to_bool s.aborted || to_bool s.done))
        (notify (returned_after_termination i)))
      _
      (λ _. then-GivesDone (bump_counter counter) _ (λ c.
        then-GivesDone (when (ltb 1 c) (notify (invoked_again i c))) _
          (λ _. then-GivesDone (check_order i) _ (λ _. record_done-GivesDone done))))
      s s' d e

module _ {ℓ κ} {W : Type ℓ} {T : Type κ} (self : Ref W ProtocolChecker)
    (cb : SourceCallback W T) where
  module _ (source : Source W T) (abort : Abort) where
    abbrev pass : Closure → Action W (Unit {0})
    pass c = source abort (some (wrapped self c.i c.counter cb))

    through-begin :
        (w : W) → (zoom self (begin abort) >>= pass) w ≡ through self source abort (some cb) w
    unfolding through
    through-begin w = begin-parts self abort pass w

    -- A request with a callback, on a checker in front of any source of any world. If the step of a
    -- run from the same state of the checker returns, then the source gets the same abort, in a
    -- world with the checker as that step leaves it, and a callback that is made from the closure
    -- that the step adds.
    pub through-step :
        (t t' : Trace) (w : W)
        → self.get w ≡ t.checker
        → step (request abort true) t ≡ (ok tt, t')
        → (c : Closure) × (t'.issued ≡ t.issued ++ some c ∷ [])
          × (through self source abort (some cb) w
              ≡ source abort (some (wrapped self c.i c.counter cb)) (self.set t'.checker w))
    through-step t t' w same e =
        let (c, s, ran, after, there) =
          same_ok self (begin abort t.checker) pass add w t t' (step-begin abort t ∙ e) in
        (
          c,
          ap (λ u. u.issued) after,
          sym (through-begin w)
              ∙ rw same (there ∙ ap (λ u. pass c (self.set u.checker w)) (sym after)),
        )

    -- A request with a callback, on a checker in front of any source of any world. If the step of a
    -- run from the same state of the checker throws, then so does the request, with the same
    -- exception and the checker as that step leaves it; the source is not called.
    pub through-throw :
        (t t' : Trace) (w : W) (e : Exception)
        → self.get w ≡ t.checker
        → step (request abort true) t ≡ (throw e, t')
        → through self source abort (some cb) w ≡ (throw e, self.set t'.checker w)
    through-throw t t' w e same h =
        sym (through-begin w)
        ∙ rw same
            (same_throw self (begin abort t.checker) pass add w t t' e (step-begin abort t ∙ h))

  -- A call of the callback that a checker in front of any source of any world gave to the source.
  -- If the answer of a run, to the same closure and from the same state of the checker, returns,
  -- then the user's callback gets the value, with the end that the checker has recorded, in a world
  -- with the checker as that answer leaves it.
  pub wrapped-call :
      (c : Closure) (done : Done) (v : T) (t t' : Trace) (w : W)
      → self.get w ≡ t.checker
      → call (some (some c)) done t ≡ (ok tt, t')
      → wrapped self c.i c.counter cb done v w ≡ cb t'.checker.done v (self.set t'.checker w)
  unfolding GivesDone
  wrapped-call c done v t t' w same e =
      let (d, s, ran, after, there) =
        same_ok self (check_callback c.i c.counter done t.checker) (λ d. cb d v) keep w t t' e in
      let first : d ≡ s.done = check_callback-GivesDone c.i c.counter done t.checker s d ran in
      rw (same, after, ← first) there
