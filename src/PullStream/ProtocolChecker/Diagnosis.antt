-- ===== src/PullStream/ProtocolChecker/Diagnosis.antt =====
-- The protocol with names for what breaks it: the first violation of a run of requests and answers,
-- by the numbers of the invariants in the messages of dk_pull/pull_stream/protocol_checker.h.
use dk_pull.Base.{
  ◌+◌, ◌≡◌, refl, Bool, true, false, not, ◌&&◌, inl, inr, Bool-cases, Option, none, some, List, [],
  ◌∷◌, ◌==◌, ltb, length, if◌then◌else◌,
}
use dk_pull.Types.EndOrError.{to_bool}
use dk_pull.PullStream.ProtocolChecker.{
  Violation, requested_after_termination, requested_after_abort, requested_after_end,
  returned_after_termination, never_invoked, never_terminated, invoked_again, invoked_before,
}
use dk_pull.PullStream.ProtocolChecker.Protocol.{
  Event, request, answer, History, is_over, allows, after, is_complete, keeps,
}

-- What an event that is not allowed violates first: a request for a value after the end; an extra
-- request after an abort or after the end; a value after the end; a second answer to a request; or
-- an answer that skips the next request to be answered. The messages count requests from 1.
abbrev pub breach : History → Event → Violation
breach h (request abort callback) =
    if to_bool abort
    then if h.aborted then requested_after_abort else requested_after_end
    else requested_after_termination
breach h (answer k done) =
    if not (to_bool done) && is_over h
    then returned_after_termination (1 + k)
    else if ltb k h.answered
    then invoked_again (1 + k) 2
    else invoked_before (1 + k) (h.answered + 1)

-- What a run that is not complete at its end violates first.
abbrev pub shortfall : History → Violation
shortfall h =
    if h.answered == length h.callbacks then never_terminated else never_invoked (h.answered + 1)

unfoldable pub diagnosis : Bool → Bool → History → List Event → Option Violation
diagnosis forbid enforce h [] = if is_complete enforce h then none else some (shortfall h)
diagnosis forbid enforce h (e ∷ es) =
    if allows forbid h e then diagnosis forbid enforce (after h e) es else some (breach h e)

abbrev pub is_none {ℓ} : {A : Type ℓ} → Option A → Bool
is_none none = true
is_none (some a) = false

-- A run keeps the protocol exactly if there is no violation.
pub is_none-diagnosis :
    (forbid enforce : Bool) (h : History) (es : List Event)
    → is_none (diagnosis forbid enforce h es) ≡ keeps forbid enforce h es
unfolding diagnosis keeps
is_none-diagnosis forbid enforce h [] = elim (Bool-cases (is_complete enforce h)) [
  | inl e ↦ rw e refl
  | inr e ↦ rw e refl
]
is_none-diagnosis forbid enforce h (e ∷ es) = elim (Bool-cases (allows forbid h e)) [
  | inl a ↦ rw a (is_none-diagnosis forbid enforce (after h e) es)
  | inr a ↦ rw a refl
]
