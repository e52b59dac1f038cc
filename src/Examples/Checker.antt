-- ===== src/Examples/Checker.antt =====
-- The protocol checker on runs of requests and answers.
use dk_pull.Base.{◌≡◌, refl, true, false, List, [], ◌∷◌, arith, next_u64}
use dk_pull.Base.Action.{Message, ok, throw, logic_error}
use dk_pull.Types.EndOrError.{ended, going, of_message}
use dk_pull.PullStream.ProtocolChecker.{
  Options, default_options, new_checker, terminate, what, never_invoked, invoked_before,
  invoked_again, requested_after_termination, requested_after_abort, requested_after_end,
  returned_after_termination, never_terminated, check_request, take_number, mark_skipped,
  new_counter, bump_counter, check_order, record_done, check_callback, report_unanswered,
  notify_error,
}
use dk_pull.PullStream.ProtocolChecker.Protocol.{Event, request, answer, at_first, keeps}
use dk_pull.PullStream.ProtocolChecker.Trace.{report, run, step, new_trace}
use dk_pull.PullStream.ProtocolChecker.Notified.{itself, Notified}
use dk_pull.PullStream.ProtocolChecker.Outcome.{report-Outcome}
use dk_pull.PullStream.ProtocolChecker.Terminate.{terminate-unanswered}

-- Report at the end, and ask for a stream that is over.
abbrev strict : Options
strict = record {
  forbid_extra_requests = true;
  enforce_stream_termination = true;
  notify_eagerly = false;
}

-- A value, a second request whose answer waits, and the end.
abbrev tidy : List Event
tidy = request going true ∷ answer 0 going ∷ request going true ∷ answer 1 ended ∷ []

-- Two requests that are answered in the wrong order.
abbrev swapped : List Event
swapped = request going true ∷ request going true ∷ answer 1 going ∷ answer 0 ended ∷ []

tidy-kept : keeps true true at_first tidy ≡ true
unfolding keeps
tidy-kept = refl

swapped-broken : keeps true true at_first swapped ≡ false
unfolding keeps
swapped-broken = refl

-- An abort without a callback breaks nothing but is never answered.
hasty_abort : keeps false false at_first (request (of_message "enough") false ∷ []) ≡ false
unfolding keeps
hasty_abort = refl

report-Outcome_example :
    (m : Message) × (ms : List Message) × ((report swapped (new_trace strict)).0 ≡ ok (m ∷ ms))
unfolding keeps
report-Outcome_example = report-Outcome strict swapped (omega arith)

terminate-unanswered_example :
    Notified itself
      (never_invoked 2)
      false
      (record (new_checker strict) { i = 3; latest = 1; skipped = (2, true) ∷ [] })
      (terminate (record (new_checker strict) { i = 3; latest = 1; skipped = (2, true) ∷ [] }))
unfolding new_checker
terminate-unanswered_example =
    terminate-unanswered false
      (record (new_checker strict) { i = 3; latest = 1; skipped = (2, true) ∷ [] }) refl (refl, tt)
      (omega arith) (omega arith)

-- protocol_checker_test.cc: for each invariant, a run that violates it.
unfoldable pub program : Unit {0}
unfolding report run step new_checker check_request take_number mark_skipped new_counter
    bump_counter check_order record_done check_callback report_unanswered notify_error terminate
    next_u64
program = tt

abbrev pub eager : Options
eager = record {
  forbid_extra_requests = true;
  enforce_stream_termination = true;
  notify_eagerly = true;
}

invariant_1 :
    (report (request ended false ∷ request going false ∷ []) (new_trace eager)).0
    ≡ throw (logic_error (what requested_after_termination))
unfolding program
invariant_1 = refl

invariant_2 :
    (report (request going false ∷ []) (new_trace eager)).0
    ≡ throw (logic_error (what (never_invoked 1)))
unfolding program
invariant_2 = refl

invariant_3 :
    (report (request going true ∷ answer 0 going ∷ answer 0 going ∷ []) (new_trace eager)).0
    ≡ throw (logic_error (what (invoked_again 1 2)))
unfolding program
invariant_3 = refl

invariant_4 :
    (report
      (request going true ∷ request going true ∷ answer 1 going ∷ answer 0 going ∷ [])
      (new_trace eager)).0
    ≡ throw (logic_error (what (invoked_before 2 1)))
unfolding program
invariant_4 = refl

invariant_5 :
    (report
      (request going true ∷ answer 0 ended ∷ request ended true ∷ answer 1 going ∷ [])
      (new_trace default_options)).0
    ≡ throw (logic_error (what (returned_after_termination 2)))
unfolding program
invariant_5 = refl

abbrev pub forbidding : Options
forbidding = record default_options { forbid_extra_requests = true }

invariant_6_aborted :
    (report
      (request ended true ∷ answer 0 ended ∷ request ended true ∷ [])
      (new_trace forbidding)).0
    ≡ throw (logic_error (what requested_after_abort))
unfolding program
invariant_6_aborted = refl

invariant_6_ended :
    (report
      (request going true ∷ answer 0 ended ∷ request ended true ∷ [])
      (new_trace forbidding)).0
    ≡ throw (logic_error (what requested_after_end))
unfolding program
invariant_6_ended = refl

invariant_7 :
    (report
      (request going true ∷ answer 0 going ∷ request going true ∷ answer 1 going ∷ [])
      (new_trace strict)).0
    ≡ ok (what never_terminated ∷ [])
unfolding program
invariant_7 = refl
