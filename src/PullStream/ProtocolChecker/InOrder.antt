-- ===== src/PullStream/ProtocolChecker/InOrder.antt =====
-- The methods of the checker (dk_pull/pull_stream/protocol_checker.h) in a state in which their
-- tests pass.
use dk_pull.Base.{
  ◌∙◌, ap, if◌then◌else◌, ℕ, ◌+◌, ◌<◌, ◌≡◌, refl, Bool, false, not, ◌&&◌, ◌||◌, List, [], ◌∷◌, ◌++◌,
  length, get_or, set, u64_mod, next_u64_exact, ltb-false, arith,
}
use dk_pull.Base.Action.{ok}
use dk_pull.Types.EndOrError.{Abort, Done, to_bool}
use dk_pull.PullStream.ProtocolChecker.{
  ProtocolChecker, check_request, take_number, new_counter, check_order, bump_counter, record_done,
  check_callback,
}

-- The state after a request with a callback, if the stream was not aborted before.
abbrev pub asked : Abort → ProtocolChecker → ProtocolChecker
asked abort s = record s { aborted = abort; i = s.i + 1; counters = s.counters ++ 0 ∷ [] }

-- The state after the answer to request `i`, if the stream had not ended before.
abbrev pub answered : ℕ → ℕ → Done → ProtocolChecker → ProtocolChecker
answered i counter done s = record s {
  counters = set s.counters counter 1;
  latest = i;
  done = done;
}

pub check_request-open :
    (abort : Abort) (s : ProtocolChecker)
    → to_bool s.aborted ≡ false
    → to_bool s.done ≡ false
    → check_request abort s ≡ (ok tt, s)
unfolding check_request
check_request-open abort s a d = rw (a, d) refl

pub take_number-open :
    (abort : Abort) (s : ProtocolChecker)
    → to_bool s.aborted ≡ false
    → s.i + 1 < u64_mod
    → take_number abort s ≡ (ok s.i, record s { aborted = abort; i = s.i + 1 })
unfolding take_number
take_number-open abort s a h = rw (a, next_u64_exact s.i h) refl

pub new_counter_lem :
    (s : ProtocolChecker)
    → new_counter s ≡ (ok (length s.counters), record s { counters = s.counters ++ 0 ∷ [] })
unfolding new_counter
new_counter_lem s = refl

pub get_or-append_self {ℓ} :
    {A : Type ℓ} (xs : List A) (a d : A) → get_or (xs ++ a ∷ []) (length xs) d ≡ a
get_or-append_self [] a d = refl
get_or-append_self (x ∷ xs) a d = get_or-append_self xs a d

pub bump_counter-first :
    (counter : ℕ) (s : ProtocolChecker)
    → get_or s.counters counter 0 ≡ 0
    → bump_counter counter s ≡ (ok 1, record s { counters = set s.counters counter 1 })
unfolding bump_counter
bump_counter-first counter s h = rw (h, next_u64_exact 0 (omega arith)) refl

pub check_order-next :
    (i : ℕ) (s : ProtocolChecker)
    → i ≡ s.latest + 1
    → i < u64_mod
    → check_order i s ≡ (ok tt, record s { latest = i })
unfolding check_order
check_order-next i s e h =
    rw
      (
        ltb-false i s.latest (omega arith),
        next_u64_exact s.latest (omega arith),
        ltb-false (s.latest + 1) i (omega arith),
      )
      refl

-- What is recorded of an end and what is passed on: the first end stays.
abbrev pub first_end : Done → Done → Done
first_end old new = if to_bool old then old else new

pub record_done_lem :
    (done : Done) (s : ProtocolChecker)
    → record_done done s ≡ (ok (first_end s.done done), record s { done = first_end s.done done })
unfolding record_done
record_done_lem done s = refl

-- The first answer to the request that is next in order passes every check, unless it brings a
-- value after an abort or after the end.
pub check_callback-next :
    (i counter : ℕ) (done : Done) (s : ProtocolChecker)
    → (not (to_bool done) && (to_bool s.aborted || to_bool s.done)) ≡ false
    → get_or s.counters counter 0 ≡ 0
    → i ≡ s.latest + 1
    → i < u64_mod
    → check_callback i counter done s
      ≡ (ok (first_end s.done done), answered i counter (first_end s.done done) s)
unfolding check_callback
check_callback-next i counter done s fine c e h =
    rw
      (
        fine,
        bump_counter-first counter s c,
        check_order-next i (record s { counters = set s.counters counter 1 }) e h,
        record_done_lem done (record s { counters = set s.counters counter 1; latest = i }),
      )
      refl

guard_off : (p q r : Bool) → r ≡ false → (p && q) ≡ false → (p && (q || r)) ≡ false
guard_off p q r = ground arith

-- So does such an answer while the stream is open, and its end is passed on as it is.
pub check_callback-open :
    (i counter : ℕ) (done : Done) (s : ProtocolChecker)
    → to_bool s.done ≡ false
    → (not (to_bool done) && to_bool s.aborted) ≡ false
    → get_or s.counters counter 0 ≡ 0
    → i ≡ s.latest + 1
    → i < u64_mod
    → check_callback i counter done s ≡ (ok done, answered i counter done s)
check_callback-open i counter done s d a c e h =
    check_callback-next i counter done s
      (guard_off (not (to_bool done)) (to_bool s.aborted) (to_bool s.done) d a) c e h
    ∙ ap (λ x. (ok (if x then s.done else done), answered i counter (if x then s.done else done) s))
        d

pub take_number_lem :
    (abort : Abort) (s : ProtocolChecker)
    → s.i + 1 < u64_mod
    → take_number abort s ≡ (ok s.i, record s { aborted = first_end s.aborted abort; i = s.i + 1 })
unfolding take_number
take_number_lem abort s h = rw (next_u64_exact s.i h) refl
