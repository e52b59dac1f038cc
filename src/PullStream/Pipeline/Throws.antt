-- ===== src/PullStream/Pipeline/Throws.antt =====
-- A drain whose function for values throws, behind the protocol checker's `Through`
-- (dk_pull/pull_stream/pull.h).
use dk_pull.Base.{
  ℕ, ◌+◌, ◌<◌, ◌≡◌, refl, ◌∙◌, List, [], ◌∷◌, ◌++◌, length, u64_mod, arith, Bool-cases, inl, inr,
  ltb-false, next_u64_exact,
}
use dk_pull.Base.Action.{Exception, Result, ok, throw}
use dk_pull.Base.Ref.{Ref, Apart}
use dk_pull.Types.EndOrError.{Done}
use dk_pull.Types.Stream.{Source}
use dk_pull.Looper.{Looper}
use dk_pull.PullStream.Conforming.{Conforming, Leaves}
use dk_pull.PullStream.Pull.{pull_all, pull_source, pull_sink}
use dk_pull.PullStream.Sinks.Drain.{Drain, sink}
use dk_pull.PullStream.Sinks.Drain.Throws.{All, Balks, sink-throw}
use dk_pull.PullStream.ProtocolChecker.{
  Options, ProtocolChecker, new_checker, terminate, never_terminated, notify_error,
}
use dk_pull.PullStream.ProtocolChecker.Wrap.{through}
use dk_pull.PullStream.ProtocolChecker.Violations.{only_if, verdict}
use dk_pull.PullStream.ProtocolChecker.Transparent.{IsOpen, through-Conforming, through-Leaves}
use dk_pull.PullStream.Pipeline.{new_checker-IsOpen}

-- A checker on an open stream on which each request was answered.
terminate-IsOpen :
    (n : ℕ) (s : ProtocolChecker)
    → IsOpen n s
    → (terminate s).0
      ≡ verdict s.notify_eagerly (only_if s.enforce_stream_termination never_terminated)
unfolding terminate notify_error
terminate-IsOpen n s o =
    rw
      (
        next_u64_exact s.latest (omega (arith, o.room, o.in_order)),
        ltb-false (s.latest + 1) s.i (omega (arith, o.in_order)),
        o.not_done,
        o.not_aborted,
      )
      (elim (Bool-cases s.enforce_stream_termination) [
        | inr x ↦ elim (Bool-cases s.notify_eagerly) [
          | inl b ↦ rw (x, b, o.clean) refl
          | inr b ↦ rw (x, b, o.clean) refl
        ]
        | inl x ↦ elim (Bool-cases s.notify_eagerly) [
          | inl b ↦ rw (x, b) refl
          | inr b ↦ rw (x, b, o.clean) refl
        ]
      ])

-- The options that matter to `Terminate`.
abbrev Keeps : Options → ProtocolChecker → Type 0
Keeps options s =
    (s.enforce_stream_termination ≡ options.enforce_stream_termination)
    × (s.notify_eagerly ≡ options.notify_eagerly)

module _ {ℓ κ μ ν ξ ο} {W : Type ℓ} {T : Type κ} {source : Source W T} {Left : List T → W → Type μ}
    {Closed : W → Type μ} {e : Done} {c : Conforming source Left Closed e} {looper : Ref W Looper}
    (checker : Ref W ProtocolChecker) (looper_leaves : Leaves looper c)
    (checker_leaves : Leaves checker c) (apart : Apart looper checker) (self : Drain W T)
    {Fine : T → Type ο} {bad : T} {x : Exception} {Seen : List T → W → Type ν}
    {Broken : List T → W → Type ξ} (u : Balks c looper self Fine bad x Seen Broken) where
  -- The function for values and the checker do not meddle with one another.
  pub record IgnoresChecker : Type (ℓ ⊔ κ ⊔ ν) where
    pub keeps_checker :
        (v : T) (r : Result (Unit {0})) (w w' : W)
        → self.on_value v w ≡ (r, w')
        → checker.get w' ≡ checker.get w
    pub keeps_seen :
        (ys : List T) (s : ProtocolChecker) (w : W) → Seen ys w → Seen ys (checker.set s w)

  module _ (options : Options) (i : IgnoresChecker) where
    through-Balks :
        Balks
          (through-Conforming checker checker_leaves)
          looper
          self
          Fine
          bad
          x
          (λ ys w. Seen ys w × Keeps options (checker.get w))
          (λ ys w. Broken ys w × Keeps options (checker.get w))
    unfolding through-Conforming
    through-Balks = record {
      value = λ ys v xs w fine (seen, kept) (left, o).
          let (w', run, seen', left', same) = u.value ys v xs w fine seen left in
          let alone = i.keeps_checker v (ok tt) w w' run in
          (w', run, (seen', rw alone kept), (left', rw alone o), same);
      balks = λ ys xs w (seen, kept) (left, o).
          let (w', run, broken, left', same) = u.balks ys xs w seen left in
          let alone = i.keeps_checker bad (throw x) w w' run in
          (w', run, (broken, rw alone kept), (left', rw alone o), same);
      seen_looper =
          λ ys l w (seen, kept). (u.seen_looper ys l w seen, rw (apart.get-set_right l w) kept);
      seen_advance = λ ys v xs w (left, o) (seen, kept). (
        i.keeps_seen ys _ _ (
            u.seen_advance ys v xs _ (checker_leaves.set_left (v ∷ xs) _ w left)
              (i.keeps_seen ys _ w seen)),
        rw checker.get-set kept,
      );
    }

    -- A drain whose function for values throws, behind a new checker and a conforming source with
    -- fewer than 2^64 - 2 values: the exception comes out of `Pull`, the function has been given the
    -- values before, once and in order, the source still has those behind it, and `Terminate` then
    -- finds fault with the run only if termination is enforced, and then only that the stream was
    -- never terminated. More fuel than there are values before it is enough.
    pub pull-throw :
        (before rest : List T) (fuel : ℕ) (w : W)
        → length (before ++ bad ∷ rest) + 2 < u64_mod
        → length before < fuel
        → All Fine before
        → checker.get w ≡ new_checker options
        → Seen [] w
        → Left (before ++ bad ∷ rest) w
        → (w' : W) × (pull_all source (through checker) (sink self looper fuel) w ≡ (throw x, w'))
          × Broken before w'
          × Left rest w'
          × ((terminate (checker.get w')).0
              ≡ verdict options.notify_eagerly
                  (only_if options.enforce_stream_termination never_terminated))
    unfolding pull_all pull_source pull_sink new_checker
    pull-throw before rest fuel w room lt fine new seen left =
        let open_ = new_checker-IsOpen options (length (before ++ bad ∷ rest)) room in
        let kept : Keeps options (checker.get w) = rw new (refl, refl) in
        let (w', run, (broken, (enforce, mode)), (left', o), l) =
          sink-throw (through-Leaves checker checker_leaves looper looper_leaves apart) self
            through-Balks before rest fuel w lt fine (seen, kept) (left, rw new open_) in
        (
          w',
          run,
          broken,
          left',
          terminate-IsOpen (length rest) (checker.get w') o ∙ λ i.
              verdict (mode i) (only_if (enforce i) never_terminated),
        )
