-- ===== src/Examples/Violations.antt =====
-- The protocol checker on a run with several violations.
use dk_pull.Base.{◌≡◌, refl, true, false, List, [], ◌∷◌, map, arith}
use dk_pull.Base.Action.{ok}
use dk_pull.Types.EndOrError.{ended, going}
use dk_pull.PullStream.ProtocolChecker.{
  Options, what, invoked_before, invoked_again, requested_after_termination, requested_after_end,
  returned_after_termination, never_invoked,
}
use dk_pull.PullStream.ProtocolChecker.Protocol.{Event, request, answer}
use dk_pull.PullStream.ProtocolChecker.Trace.{report, new_trace}
use dk_pull.PullStream.ProtocolChecker.Violations.{violations, blank}
use dk_pull.PullStream.ProtocolChecker.Complete.{report-verdict}

abbrev lenient : Options
lenient = record {
  forbid_extra_requests = true;
  enforce_stream_termination = true;
  notify_eagerly = false;
}

-- Three requests; the third one is answered before the first, which is then answered twice, the
-- second time with a value after the end; then one more request.
abbrev unruly : List Event
unruly =
    request going true
    ∷ request going true
    ∷ request going true
    ∷ answer 2 going
    ∷ answer 0 ended
    ∷ answer 0 going
    ∷ request going true
    ∷ []

unruly-violations :
    violations true true blank unruly
    ≡ invoked_before 3 1
      ∷ returned_after_termination 1
      ∷ invoked_again 1 2
      ∷ requested_after_termination
      ∷ requested_after_end
      ∷ never_invoked 2
      ∷ never_invoked 3
      ∷ never_invoked 4
      ∷ []
unfolding violations
unruly-violations = refl

report-verdict_example :
    (report unruly (new_trace lenient)).0 ≡ ok (map what (violations true true blank unruly))
report-verdict_example = report-verdict lenient unruly (omega arith)
