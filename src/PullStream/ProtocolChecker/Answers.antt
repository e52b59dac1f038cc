-- ===== src/PullStream/ProtocolChecker/Answers.antt =====
-- A call of a closure of the checker (dk_pull/pull_stream/protocol_checker.h), in order or not.
use native.Mathlib.Nat.{zero-add}
use dk_pull.Base.{
  ℕ, suc, ◌+◌, ◌<◌, ◌≡◌, refl, ap, ◌∙◌, Bool, true, not, ◌&&◌, ◌||◌, List, ◌++◌, ltb, get_or,
  get_elem?, u64_mod, arith,
}
use dk_pull.Base.Action.{skip}
use dk_pull.Base.Ref.{zoom}
use dk_pull.Types.EndOrError.{Done, to_bool}
use dk_pull.PullStream.ProtocolChecker.{Options, Violation, check_callback}
use dk_pull.PullStream.ProtocolChecker.Protocol.{answer}
use dk_pull.PullStream.ProtocolChecker.Trace.{Trace, the_checker, step}
use dk_pull.PullStream.ProtocolChecker.Cells.{ones_before, closures-get, get_or-lt}
use dk_pull.PullStream.ProtocolChecker.Tallies.{get-tallies, set-tallies}
use dk_pull.PullStream.ProtocolChecker.Violations.{Ledger, has_callback, breaches, entered}
use dk_pull.PullStream.ProtocolChecker.Emits.{Emits, Emits-and}
use dk_pull.PullStream.ProtocolChecker.Checks.{callback_notes, called, check_callback-Emits}
use dk_pull.PullStream.ProtocolChecker.Agrees.{to_bool-first_end, Agrees, zoom-Emits, errors-same}

again_same : (n : ℕ) → ltb 1 (n + 1) ≡ ltb 0 n
again_same n = ground arith

module _ (options : Options) (l : Ledger) (n : ℕ) (vs : List Violation) (t : Trace)
    (f : Agrees options l n vs t) (k : ℕ) (done : Done) where
  abbrev counter : ℕ
  counter = 0 + ones_before l.callbacks k

  abbrev late : Bool
  late = not (to_bool done) && (to_bool t.checker.aborted || to_bool t.checker.done)

  module _ (cb : has_callback l k ≡ true) where
    cell : get_or t.checker.counters counter 0 ≡ l.tally k
    cell = rw (zero-add, f.same_counters) (get-tallies l.callbacks l.tally k cb)

    answer-same :
        callback_notes (1 + k) (l.tally k) late t.checker
        ≡ breaches options.forbid_extra_requests l (answer k done)
    answer-same = rw (cb, f.same_aborted, f.same_ended, f.same_latest, again_same) refl

    -- The trace after a call that was checked.
    called-Agrees :
        (ws : List Violation)
        → Agrees options
            (entered l (answer k done))
            (suc n)
            (vs ++ ws)
            (record t { checker = called (1 + k) counter (l.tally k) done ws t.checker })
    called-Agrees ws =
        let bound = get_or-lt l.callbacks k cb in
        let more : l.tally k + 1 ≡ suc (l.tally k) = omega arith in
        rw cb (record {
          same_forbid = f.same_forbid;
          same_enforce = f.same_enforce;
          same_mode = f.same_mode;
          same_aborted = f.same_aborted;
          same_ended = rw (to_bool-first_end, f.same_ended);
          next_number = f.next_number;
          same_latest = rw (f.same_latest) refl;
          marks = f.marks;
          same_issued = f.same_issued;
          same_counters =
              rw (zero-add, f.same_counters, more) (set-tallies l.callbacks l.tally k cb);
          unasked = λ j le. ground (arith, f.unasked j le);
          few_answers = λ j. ground (arith, f.few_answers j, f.few_answers k);
          few_requests = omega (arith, f.few_requests);
          reached_asked = ground (arith, f.reached_asked);
          same_errors = errors-same options l n vs t f ws;
        })

  pub answer-Emits :
      has_callback l k ≡ true
      → n + 2 < u64_mod
      → Emits
          (λ (_ : Unit {0}) t'.
            Agrees options
              (entered l (answer k done))
              (suc n)
              (vs ++ breaches options.forbid_extra_requests l (answer k done))
              t')
          options.notify_eagerly
          (breaches options.forbid_extra_requests l (answer k done))
          (step (answer k done) t)
  unfolding step
  answer-Emits cb room =
      let ws = callback_notes (1 + k) (l.tally k) late t.checker in
      rw
        (
          ap (λ c. get_elem? c k) f.same_issued ∙ closures-get l.callbacks 1 0 k cb,
          ← answer-same cb,
        )
        (Emits-and
          (λ (_ : Done) t'. Agrees options (entered l (answer k done)) (suc n) (vs ++ ws) t')
          (λ (_ : Unit {0}) t'. Agrees options (entered l (answer k done)) (suc n) (vs ++ ws) t')
          options.notify_eagerly ws (zoom the_checker (check_callback (1 + k) counter done) t)
          (λ _. skip)
          (zoom-Emits (λ (_ : Done) s. s ≡ called (1 + k) counter (l.tally k) done ws t.checker)
            (λ (_ : Done) t'. Agrees options (entered l (answer k done)) (suc n) (vs ++ ws) t')
            (check_callback (1 + k) counter done) options.notify_eagerly ws t
            (λ _ s at_. rw (at_) (called-Agrees cb ws))
            (check_callback-Emits (1 + k) counter (l.tally k) done options.notify_eagerly t.checker
              (cell cb) (omega (arith, f.few_answers k))
              (omega (arith, f.same_latest, f.reached_asked, f.few_requests)) f.same_mode))
          (λ _ t' a. (tt, t', refl, a)))
