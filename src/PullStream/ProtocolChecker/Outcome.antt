-- ===== src/PullStream/ProtocolChecker/Outcome.antt =====
-- What the user of a checker gets to see of a run, by the protocol alone: the result of `Terminate`,
-- or an exception.
use dk_pull.Base.{
  ◌+◌, ◌<◌, ◌≡◌, refl, ap, ◌∙◌, Bool, true, false, List, [], ◌∷◌, map, length, u64_mod,
}
use dk_pull.Base.Action.{Result, Message, ok}
use dk_pull.PullStream.ProtocolChecker.{Options, Violation, what}
use dk_pull.PullStream.ProtocolChecker.Protocol.{Event, at_first, keeps}
use dk_pull.PullStream.ProtocolChecker.Diagnosis.{is_none, is_none-diagnosis}
use dk_pull.PullStream.ProtocolChecker.Trace.{new_trace, report}
use dk_pull.PullStream.ProtocolChecker.Notified.{is_logic_error}
use dk_pull.PullStream.ProtocolChecker.Violations.{blank, violations, verdict}
use dk_pull.PullStream.ProtocolChecker.Follows.{blank-Follows}
use dk_pull.PullStream.ProtocolChecker.Firsts.{first, first-violations}
use dk_pull.PullStream.ProtocolChecker.Complete.{report-verdict}

-- The result after a run that kept the protocol or not, and with eager notification or without.
abbrev pub Outcome : Bool → Bool → Result (List Message) → Type 0
Outcome true eager r = r ≡ ok []
Outcome false true r = is_logic_error r ≡ true
Outcome false false r = (m : Message) × (ms : List Message) × (r ≡ ok (m ∷ ms))

verdict-Outcome :
    (eager : Bool) (vs : List Violation) → Outcome (is_none (first vs)) eager (verdict eager vs)
verdict-Outcome true [] = refl
verdict-Outcome true (v ∷ vs) = refl
verdict-Outcome false [] = refl
verdict-Outcome false (v ∷ vs) = (what v, map what vs, refl)

keeps-first :
    (forbid enforce : Bool) (es : List Event)
    → is_none (first (violations forbid enforce blank es)) ≡ keeps forbid enforce at_first es
keeps-first forbid enforce es =
    ap is_none (first-violations forbid enforce blank at_first es blank-Follows)
    ∙ is_none-diagnosis forbid enforce at_first es

-- The checker against the protocol, for any run of requests and answers in any interleaving, with
-- fewer than 2^64 - 2 events, and each choice of options. If the run keeps the protocol, then
-- nothing throws and `Terminate` returns no errors. If it breaks it, then with eager notification a
-- `std::logic_error` is thrown, and otherwise nothing throws and `Terminate` returns an error.
pub report-Outcome :
    (options : Options) (es : List Event)
    → length es + 2 < u64_mod
    → Outcome
        (keeps options.forbid_extra_requests options.enforce_stream_termination at_first es)
        options.notify_eagerly
        (report es (new_trace options)).0
report-Outcome options es room =
    rw
      (
        report-verdict options es room,
        ← keeps-first options.forbid_extra_requests options.enforce_stream_termination es,
      )
      (verdict-Outcome options.notify_eagerly
        (violations options.forbid_extra_requests options.enforce_stream_termination blank es))
