-- ===== src/PullStream/ProtocolChecker/Firsts.antt =====
-- The list of all violations of a run against the protocol and the first violation of the run.
use dk_pull.Base.{
  ℕ, suc, ◌+◌, ◌-◌, ◌<◌, ◌≤◌, ◌≡◌, ◌≢◌, refl, ap, ◌∙◌, Bool, true, false, not, ◌&&◌, ◌||◌, inl, inr,
  Bool-cases, Option, none, some, List, [], ◌∷◌, ◌++◌, ◌==◌, ==-false, ltb, ltb-true, ltb-false,
  length, get_or, arith, if◌then◌else◌,
}
use dk_pull.Types.EndOrError.{to_bool}
use dk_pull.PullStream.ProtocolChecker.Messages.{
  Violation, requested_after_termination, requested_after_abort, requested_after_end, never_invoked,
  never_terminated, invoked_again, invoked_after, invoked_before,
}
use dk_pull.PullStream.ProtocolChecker.Protocol.{
  Event, request, answer, History, is_over, allows, after,
}
use dk_pull.PullStream.ProtocolChecker.Diagnosis.{breach, diagnosis}
use dk_pull.PullStream.ProtocolChecker.Violations.{
  Ledger, only_if, breaches, entered, missing, violations,
}
use dk_pull.PullStream.ProtocolChecker.Follows.{Follows, entered-Follows}

abbrev pub first : List Violation → Option Violation
first [] = none
first (v ∷ vs) = some v

abbrev or_first : Option Violation → List Violation → Option Violation
or_first none vs = first vs
or_first (some v) vs = some v

first-append : (us vs : List Violation) → first (us ++ vs) ≡ or_first (first us) vs
first-append [] vs = refl
first-append (u ∷ us) vs = refl

request-first :
    (forbid aborted ended abort : Bool)
    → first (
        if aborted || ended
        then only_if (not abort) requested_after_termination
          ++ (if forbid
              then only_if aborted requested_after_abort ++ only_if ended requested_after_end
              else [])
        else [])
      ≡ (if not (aborted || ended) || abort && not forbid
          then none
          else some (
              if abort
              then if aborted then requested_after_abort else requested_after_end
              else requested_after_termination))
request-first forbid false false abort = refl
request-first false true ended false = refl
request-first false true ended true = refl
request-first true true ended false = refl
request-first true true ended true = refl
request-first false false true false = refl
request-first false false true true = refl
request-first true false true false = refl
request-first true false true true = refl

-- The answers by their place: answered before, the next one, or too far ahead.
order-first :
    (tally answered k : ℕ)
    → (k < answered → tally ≡ 1)
    → (answered ≤ k → tally ≡ 0)
    → first (
        only_if (ltb 0 tally) (invoked_again (1 + k) (tally + 1))
        ++ (if ltb (1 + k) answered
            then invoked_after (1 + k) answered ∷ []
            else only_if (ltb (answered + 1) (1 + k)) (invoked_before (1 + k) (answered + 1))))
      ≡ (if k == answered
          then none
          else some (
              if ltb k answered
              then invoked_again (1 + k) 2
              else invoked_before (1 + k) (answered + 1)))
order-first tally answered k once never = elim (Bool-cases (ltb k answered)) [
  | inl e ↦
      let lt : k < answered = ground arith in
      rw (once lt, ==-false k answered (omega arith), e) refl
  | inr e ↦
      let le : answered ≤ k = ground arith in
      elim (Bool-cases (k == answered)) [
        | inl s ↦
            let eq : k ≡ answered = ground arith in
            rw
              (
                never le,
                s,
                ltb-false (1 + k) answered (omega arith),
                ltb-false (answered + 1) (1 + k) (omega arith),
              )
              refl
        | inr s ↦
            let ne : k ≢ answered = ground arith in
            rw
              (
                never le,
                s,
                e,
                ltb-false (1 + k) answered (omega arith),
                ltb-true (answered + 1) (1 + k) (omega arith),
              )
              refl
      ]
]

answer-first :
    (done over next : Bool) (late other : Violation) (vs : List Violation)
    → first vs ≡ (if next then none else some other)
    → first (only_if (not done && over) late ++ vs) ≡ (
        if (done || not over) && next
        then none
        else some (if not done && over then late else other))
answer-first false true next late other vs h = refl
answer-first false false next late other vs h = h
answer-first true over next late other vs h = h

breaches-first :
    (forbid : Bool) (l : Ledger) (h : History) (e : Event)
    → Follows l h
    → first (breaches forbid l e) ≡ (if allows forbid h e then none else some (breach h e))
breaches-first forbid l h (request abort callback) f =
    rw (f.same_aborted, f.same_ended) (request-first forbid h.aborted h.ended (to_bool abort))
breaches-first forbid l h (answer k done) f = elim (Bool-cases (get_or h.callbacks k false)) [
  | inr unheard ↦ rw (f.same_callbacks, unheard) refl
  | inl heard ↦
      rw (f.same_callbacks, heard, f.same_aborted, f.same_ended, f.same_reached)
        (answer-first (to_bool done) (is_over h) (k == h.answered) _ _ _
          (order-first (l.tally k) h.answered k (f.answered_once k) (f.not_answered k)))
]

over-first :
    (enforce over : Bool)
    → first (only_if (enforce && not over) never_terminated)
      ≡ (if not enforce || over then none else some never_terminated)
over-first false over = refl
over-first true false = refl
over-first true true = refl

missing-first :
    (enforce over : Bool) (answered asked : ℕ)
    → answered ≤ asked
    → first (
        missing (answered + 1) (asked - answered) ++ only_if (enforce && not over) never_terminated)
      ≡ (if answered == asked && (not enforce || over)
          then none
          else some (if answered == asked then never_terminated else never_invoked (answered + 1)))
missing-first enforce over answered asked le = elim (Bool-cases (answered == asked)) [
  | inl e ↦
      let none_left : asked - answered ≡ 0 = ground arith in
      rw (none_left, e) (over-first enforce over)
  | inr e ↦
      let ne : answered ≢ asked = ground arith in
      let some_left : asked - answered ≡ suc (asked - suc answered) = omega arith in
      rw (some_left, e) refl
]

-- The first of all violations of a run is the one that the diagnosis names.
pub first-violations :
    (forbid enforce : Bool) (l : Ledger) (h : History) (es : List Event)
    → Follows l h
    → first (violations forbid enforce l es) ≡ diagnosis forbid enforce h es
unfolding violations diagnosis
first-violations forbid enforce l h [] f =
    rw (f.same_aborted, f.same_ended, f.same_callbacks, f.same_reached)
      (missing-first enforce (is_over h) h.answered (length h.callbacks) f.few_answers)
first-violations forbid enforce l h (e ∷ es) f =
    first-append (breaches forbid l e) _
    ∙ ap (λ o. or_first o (violations forbid enforce (entered l e) es))
        (breaches-first forbid l h e f)
    ∙ elim (Bool-cases (allows forbid h e)) [
      | inl may ↦ rw may (
          first-violations forbid enforce (entered l e) (after h e) es
            (entered-Follows forbid l h e may f))
      | inr may ↦ rw may refl
    ]
