-- ===== src/PullStream/ProtocolChecker/Violations.antt =====
-- All violations of a run of requests and answers, in order, by the invariants in the messages of
-- dk_pull/pull_stream/protocol_checker.h: what each event violates, given the events before it, and
-- what the end of the run does.
use dk_pull.Base.{
  ℕ, zero, suc, ◌+◌, ◌-◌, Bool, true, false, not, ◌&&◌, ◌||◌, List, [], ◌∷◌, ◌++◌, map, ◌==◌, ltb,
  length, get_or, if◌then◌else◌,
}
use dk_pull.Base.Action.{Message, Result, ok, throw, logic_error}
use dk_pull.Types.EndOrError.{to_bool}
use dk_pull.PullStream.ProtocolChecker.Messages.{
  Violation, what, requested_after_termination, requested_after_abort, requested_after_end,
  returned_after_termination, never_invoked, never_terminated, invoked_again, invoked_after,
  invoked_before,
}
use dk_pull.PullStream.ProtocolChecker.Protocol.{Event, request, answer}

-- What the events so far have been.
pub record Ledger : Type 0 where
  pub aborted : Bool  -- some request was an abort
  pub ended : Bool  -- some answer was an end
  pub callbacks : List Bool  -- for each request, whether it had a callback
  pub tally : ℕ → ℕ  -- how many answers each request has had
  pub reached : ℕ  -- the number of the last answer that came in order

abbrev pub blank : Ledger
blank = record { aborted = false; ended = false; callbacks = []; tally = λ k. 0; reached = 0 }

abbrev pub is_over : Ledger → Bool
is_over l = l.aborted || l.ended

abbrev pub has_callback : Ledger → ℕ → Bool
has_callback l k = get_or l.callbacks k false

-- `v` alone, if the test holds.
abbrev pub only_if : Bool → Violation → List Violation
only_if true v = v ∷ []
only_if false v = []

-- The request after the end of the stream.
abbrev pub request_breaches : Bool → Ledger → Bool → List Violation
request_breaches forbid l abort =
    only_if (not abort) requested_after_termination
    ++ (if forbid
        then only_if l.aborted requested_after_abort ++ only_if l.ended requested_after_end
        else [])

-- The order of answer number `i`.
abbrev pub order_breaches : Ledger → ℕ → List Violation
order_breaches l i =
    if ltb i l.reached
    then invoked_after i l.reached ∷ []
    else only_if (ltb (l.reached + 1) i) (invoked_before i (l.reached + 1))

-- The messages count requests from 1.
abbrev pub breaches : Bool → Ledger → Event → List Violation
breaches forbid l (request abort callback) =
    if is_over l then request_breaches forbid l (to_bool abort) else []
breaches forbid l (answer k done) =
    if has_callback l k
    then only_if (not (to_bool done) && is_over l) (returned_after_termination (1 + k))
      ++ (only_if (ltb 0 (l.tally k)) (invoked_again (1 + k) (l.tally k + 1))
          ++ order_breaches l (1 + k))
    else []

-- An answer is in order if its request is the one after the last one in order, or that one again.
abbrev pub in_order : Ledger → ℕ → Bool
in_order l i = not (ltb i l.reached) && not (ltb (l.reached + 1) i)

abbrev pub entered : Ledger → Event → Ledger
entered l (request abort callback) = record l {
  aborted = l.aborted || to_bool abort;
  callbacks = l.callbacks ++ callback ∷ [];
}
entered l (answer k done) =
    if has_callback l k
    then record l {
      ended = l.ended || to_bool done;
      tally = λ j. if j == k then suc (l.tally k) else l.tally j;
      reached = if in_order l (1 + k) then 1 + k else l.reached;
    }
    else l

-- `n` requests from number `k` on.
abbrev pub missing : ℕ → ℕ → List Violation
missing k zero = []
missing k (suc n) = never_invoked k ∷ missing (k + 1) n

-- At the end, the requests after the last answer in order count as never answered.
abbrev pub end_breaches : Bool → Ledger → List Violation
end_breaches enforce l =
    missing (l.reached + 1) (length l.callbacks - l.reached)
    ++ only_if (enforce && not (is_over l)) never_terminated

unfoldable pub violations : Bool → Bool → Ledger → List Event → List Violation
violations forbid enforce l [] = end_breaches enforce l
violations forbid enforce l (e ∷ es) =
    breaches forbid l e ++ violations forbid enforce (entered l e) es

-- Eager notification throws at the first violation; otherwise all of them are returned.
abbrev pub verdict : Bool → List Violation → Result (List Message)
verdict true [] = ok []
verdict true (v ∷ vs) = throw (logic_error (what v))
verdict false vs = ok (map what vs)
