-- ===== src/PullStream/ProtocolChecker/Terminate.antt =====
-- `Terminate` (dk_pull/pull_stream/protocol_checker.h): unanswered requests, a stream that is
-- not over, and the marks that a request without a callback leaves.
use dk_pull.Base.{
  ℕ, zero, suc, ◌+◌, ◌-◌, ◌<◌, ◌≡◌, refl, Bool, true, false, not, ◌&&◌, List, [], ◌∷◌, u64_mod,
  next_u64_exact, ltb, ltb-true, ltb-false, arith,
}
use dk_pull.Base.Action.{ok}
use dk_pull.Types.EndOrError.{to_bool}
use dk_pull.PullStream.ProtocolChecker.{
  ProtocolChecker, notify, when, insert, unanswered, report_unanswered, terminate, never_invoked,
  never_terminated,
}
use dk_pull.PullStream.ProtocolChecker.Notified.{
  IsQuiet, then-IsQuiet, Notified-then_lem, when-true, itself, Notified, same-Quiet, when-IsQuiet,
  notify-IsQuiet, notify-Notified,
}

-- Every mark says `true`: the checker writes no other.
abbrev pub IsMarks : List (ℕ × Bool) → Type 0
IsMarks [] = Unit {0}
IsMarks ((j, u) ∷ m) = (u ≡ true) × IsMarks m

pub insert-IsMarks : (k : ℕ) (m : List (ℕ × Bool)) → IsMarks m → IsMarks (insert k true m)
insert-IsMarks k [] h = (refl, tt)
insert-IsMarks k ((j, u) ∷ m) h = ground (arith, insert-IsMarks k m h.1)

-- So a request is reported whether it is marked as skipped or not.
pub unanswered-IsMarks : (k : ℕ) (m : List (ℕ × Bool)) → IsMarks m → unanswered k m ≡ true
unanswered-IsMarks k [] h = refl
unanswered-IsMarks k ((j, u) ∷ m) h = ground (arith, unanswered-IsMarks k m h.1)

report_unanswered-IsQuiet : (k n : ℕ) → IsQuiet (report_unanswered k n)
unfolding report_unanswered
report_unanswered-IsQuiet k zero b s e = same-Quiet b s _ _ e refl refl
report_unanswered-IsQuiet k (suc n) b s e =
    then-IsQuiet _ _ (when-IsQuiet (unanswered k s.skipped) _ (notify-IsQuiet (never_invoked k)))
      (λ _. report_unanswered-IsQuiet (k + 1) n) b s e

report_unanswered-Notified :
    (k n : ℕ) (b : Bool) (s : ProtocolChecker)
    → s.notify_eagerly ≡ b
    → IsMarks s.skipped
    → 0 < n
    → Notified itself (never_invoked k) b s (report_unanswered k n s)
unfolding report_unanswered
report_unanswered-Notified k zero b s e m lt = absurd (omega arith)
report_unanswered-Notified k (suc n) b s e m lt =
    let v = never_invoked k in
    Notified-then_lem (when (unanswered k s.skipped) (notify v)) _ v b s
      (when-true (unanswered k s.skipped) _ v b s (unanswered-IsMarks k s.skipped m)
        (notify-Notified v b s e))
      (λ _. report_unanswered-IsQuiet (k + 1) n)

-- If there are more requests than the last one answered, then `Terminate` notifies, be the requests
-- marked as skipped or not. With eager notification it throws the message that the callback of the
-- request after the last one answered was never invoked; otherwise that message is the first that
-- it adds to the errors, and it returns.
pub terminate-unanswered :
    (b : Bool) (s : ProtocolChecker)
    → s.notify_eagerly ≡ b
    → IsMarks s.skipped
    → s.latest + 1 < s.i
    → s.i < u64_mod
    → Notified itself (never_invoked (s.latest + 1)) b s (terminate s)
unfolding terminate
terminate-unanswered b s e m lt fits = rw (next_u64_exact s.latest (omega arith)) (
    let v = never_invoked (s.latest + 1) in
    Notified-then_lem
      (when (ltb (s.latest + 1) s.i) (report_unanswered (s.latest + 1) (s.i - (s.latest + 1)))) _ v
      b s
      (when-true _ _ v b s (ltb-true (s.latest + 1) s.i lt)
        (report_unanswered-Notified (s.latest + 1) (s.i - (s.latest + 1)) b s e m (omega arith)))
      (λ _.
        then-IsQuiet _ _
          (when-IsQuiet
            (s.enforce_stream_termination && not (to_bool s.done) && not (to_bool s.aborted)) _
            (notify-IsQuiet never_terminated))
          (λ _ c t h. same-Quiet c t _ _ h refl refl)))

-- If all is answered, and the stream is over or need not be, nothing happens, and the errors are
-- the result.
pub terminate_complete :
    (s : ProtocolChecker)
    → s.i ≡ s.latest + 1
    → s.i < u64_mod
    → (s.enforce_stream_termination && not (to_bool s.done) && not (to_bool s.aborted)) ≡ false
    → terminate s ≡ (ok s.errors, s)
unfolding terminate
terminate_complete s order fits over =
    rw (next_u64_exact s.latest (omega arith), ltb-false (s.latest + 1) s.i (omega arith), over)
      refl
