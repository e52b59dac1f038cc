-- ===== src/PullStream/ProtocolChecker/Messages.antt =====
-- The messages of the protocol checker (dk_pull/pull_stream/protocol_checker.h): which invariant
-- was violated, with the numbers that the message shows.
use dk_pull.Base.{ℕ, [], ◌∷◌}
use dk_pull.Base.Action.{Message, text, number}

pub data Violation : Type 0 where
  requested_after_termination requested_after_abort requested_after_end never_terminated : Violation
  returned_after_termination never_invoked : ℕ → Violation
  invoked_again invoked_after invoked_before : ℕ → ℕ → Violation

abbrev pub what : Violation → Message
what requested_after_termination =
    text "Invariant 1 violated: value requested after termination" ∷ []
what requested_after_abort =
    text "Invariant 6 violated: request made after the stream was aborted" ∷ []
what requested_after_end =
    text "Invariant 6 violated: request made after the stream has terminated" ∷ []
what never_terminated = text "Invariant 7 violated: stream was never terminated" ∷ []
what (returned_after_termination i) =
    text "Invariant 5 violated: callback "
    ∷ number i
    ∷ text " returned a value after termination"
    ∷ []
what (never_invoked k) =
    text "Invariant 2 violated: callback " ∷ number k ∷ text " was never invoked" ∷ []
what (invoked_again i counter) =
    text "Invariant 3 violated: callback "
    ∷ number i
    ∷ text " invoked "
    ∷ number counter
    ∷ text " times"
    ∷ []
what (invoked_after i latest) =
    text "Invariant 4 violated: callback "
    ∷ number i
    ∷ text " invoked after callback "
    ∷ number latest
    ∷ []
what (invoked_before i expected) =
    text "Invariant 4 violated: callback "
    ∷ number i
    ∷ text " invoked before callback "
    ∷ number expected
    ∷ []
