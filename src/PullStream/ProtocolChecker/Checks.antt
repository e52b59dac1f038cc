-- ===== src/PullStream/ProtocolChecker/Checks.antt =====
-- The methods of the checker (dk_pull/pull_stream/protocol_checker.h) in any state: all that each
-- notifies of, and the state that it leaves.
use dk_pull.Base.{
  ℕ, zero, suc, ◌+◌, ◌-◌, ◌<◌, ◌≡◌, refl, ap, ◌∙◌, Bool, not, ◌&&◌, ◌||◌, List, [], ◌∷◌, ◌++◌, map,
  if◌then◌else◌, ltb, inl, inr, Bool-cases, next_u64_exact, get_or, set, u64_mod, arith,
}
use dk_pull.Base.Action.{Message, ◌>>=◌, ◌>>◌}
use dk_pull.Types.EndOrError.{Abort, Done, to_bool}
use dk_pull.PullStream.ProtocolChecker.{
  ProtocolChecker, Violation, what, notify, when, get, pure, requested_after_termination,
  requested_after_abort, requested_after_end, returned_after_termination, never_invoked,
  never_terminated, invoked_again, invoked_after, invoked_before, check_request, bump_counter,
  check_order, record_done, check_callback, report_unanswered, terminate,
}
use dk_pull.PullStream.ProtocolChecker.InOrder.{first_end}
use dk_pull.PullStream.ProtocolChecker.Terminate.{IsMarks, unanswered-IsMarks}
use dk_pull.PullStream.ProtocolChecker.Violations.{only_if, missing}
use dk_pull.PullStream.ProtocolChecker.Emits.{
  Emits, Emits-then, Emits-and, Emits-weaken, noted, noted-noted, errors-append, then-Notifies,
  when-Notifies, only_if-Notifies, skip-Notifies, notify-Notifies,
}

abbrev pub request_notes : Bool → Bool → Bool → Bool → List Violation
request_notes forbid aborted done abort =
    if aborted || done
    then only_if (not abort) requested_after_termination
      ++ (if forbid
          then only_if aborted requested_after_abort ++ only_if done requested_after_end
          else [])
    else []

pub check_request-Emits :
    (abort : Abort) (b : Bool) (s : ProtocolChecker)
    → s.notify_eagerly ≡ b
    → Emits
        (λ (_ : Unit {0}) w.
          w
          ≡ noted
              (request_notes s.forbid_extra_requests
                (to_bool s.aborted)
                (to_bool s.done)
                (to_bool abort))
              s)
        b
        (request_notes s.forbid_extra_requests (to_bool s.aborted) (to_bool s.done) (to_bool abort))
        (check_request abort s)
unfolding check_request
check_request-Emits abort b s e =
    when-Notifies (to_bool s.aborted || to_bool s.done) _ _
      (then-Notifies _ _ _ _ (only_if-Notifies (not (to_bool abort)) requested_after_termination) (
        when-Notifies s.forbid_extra_requests _ _ (
          then-Notifies _ _ _ _ (only_if-Notifies (to_bool s.aborted) requested_after_abort)
            (only_if-Notifies (to_bool s.done) requested_after_end))))
      b s e

abbrev pub order_notes : ℕ → ℕ → List Violation
order_notes latest i =
    if ltb i latest
    then invoked_after i latest ∷ []
    else only_if (ltb (latest + 1) i) (invoked_before i (latest + 1))

abbrev pub next_latest : ℕ → ℕ → ℕ
next_latest latest i = if not (ltb i latest) && not (ltb (latest + 1) i) then i else latest

abbrev pub ordered : ℕ → ProtocolChecker → ProtocolChecker
ordered i s = record s {
  latest = next_latest s.latest i;
  errors = s.errors ++ map what (order_notes s.latest i);
}

check_order-Emits :
    (i : ℕ) (b : Bool) (s : ProtocolChecker)
    → s.latest + 1 < u64_mod
    → s.notify_eagerly ≡ b
    → Emits (λ (_ : Unit {0}) w. w ≡ ordered i s) b (order_notes s.latest i) (check_order i s)
unfolding check_order
check_order-Emits i b s room e = elim (Bool-cases (ltb i s.latest)) [
  | inl before ↦ rw before (notify-Notifies (invoked_after i s.latest) b s e)
  | inr p ↦ elim (Bool-cases (ltb (s.latest + 1) i)) [
    | inl late ↦
        rw (next_u64_exact s.latest room, p, late)
          (notify-Notifies (invoked_before i (s.latest + 1)) b s e)
    | inr q ↦ rw (next_u64_exact s.latest room, p, q) (skip-Notifies b (record s { latest = i }) e)
  ]
]

abbrev pub callback_notes : ℕ → ℕ → Bool → ProtocolChecker → List Violation
callback_notes i n late s =
    only_if late (returned_after_termination i)
    ++ (only_if (ltb 1 (n + 1)) (invoked_again i (n + 1)) ++ order_notes s.latest i)

-- The state after a call of the closure of request `i`, whose counter was `n`.
abbrev pub called : ℕ → ℕ → ℕ → Done → List Violation → ProtocolChecker → ProtocolChecker
called i counter n done vs s = record s {
  counters = set s.counters counter (n + 1);
  latest = next_latest s.latest i;
  done = first_end s.done done;
  errors = s.errors ++ map what vs;
}

abbrev pub finished : Done → ProtocolChecker → ProtocolChecker
finished done s = record s { done = first_end s.done done }

-- The part of the closure behind the counter.
ordered-Emits :
    (i : ℕ) (done : Done) (b : Bool) (s : ProtocolChecker)
    → s.latest + 1 < u64_mod
    → s.notify_eagerly ≡ b
    → Emits
        (λ (_ : Done) w. w ≡ finished done (ordered i s))
        b
        (order_notes s.latest i)
        ((check_order i >> record_done done) s)
unfolding record_done
ordered-Emits i done b s room e =
    Emits-and (λ (_ : Unit {0}) w. w ≡ ordered i s)
      (λ (_ : Done) w. w ≡ finished done (ordered i s)) b (order_notes s.latest i) (check_order i s)
      (λ _. record_done done) (check_order-Emits i b s room e)
      (λ _ w at_. (first_end w.done done, finished done w, refl, ap (finished done) at_))

pub check_callback-Emits :
    (i counter n : ℕ) (done : Done) (b : Bool) (s : ProtocolChecker)
    → get_or s.counters counter 0 ≡ n
    → n + 1 < u64_mod
    → s.latest + 1 < u64_mod
    → s.notify_eagerly ≡ b
    → let vs = callback_notes i n (not (to_bool done) && (to_bool s.aborted || to_bool s.done)) s in
      Emits
        (λ (_ : Done) w. w ≡ called i counter n done vs s)
        b
        vs
        (check_callback i counter done s)
unfolding check_callback bump_counter
check_callback-Emits i counter n done b s cell small room e =
    let late = not (to_bool done) && (to_bool s.aborted || to_bool s.done) in
    let v1 = only_if late (returned_after_termination i) in
    let v2 = only_if (ltb 1 (n + 1)) (invoked_again i (n + 1)) in
    let v3 = order_notes s.latest i in
    let s2 = record (noted v1 s) { counters = set s.counters counter (n + 1) } in
    Emits-then (λ (_ : Unit {0}) w. w ≡ noted v1 s)
      (λ (_ : Done) w. w ≡ called i counter n done (v1 ++ (v2 ++ v3)) s) b v1 (v2 ++ v3)
      (when late (notify (returned_after_termination i)) s) _
      (only_if-Notifies late (returned_after_termination i) b s e)
      (λ _ w at_.
        rw (at_, cell, next_u64_exact n small)
          (Emits-then (λ (_ : Unit {0}) w. w ≡ noted v2 s2)
            (λ (_ : Done) w. w ≡ called i counter n done (v1 ++ (v2 ++ v3)) s) b v2 v3
            (when (ltb 1 (n + 1)) (notify (invoked_again i (n + 1))) s2)
            (λ _. check_order i >> record_done done)
            (only_if-Notifies (ltb 1 (n + 1)) (invoked_again i (n + 1)) b s2 e)
            (λ _ u at_u. rw (at_u) (
              Emits-weaken (λ (_ : Done) w. w ≡ finished done (ordered i (noted v2 s2)))
                (λ (_ : Done) w. w ≡ called i counter n done (v1 ++ (v2 ++ v3)) s) b v3
                ((check_order i >> record_done done) (noted v2 s2))
                (λ _ t h.
                  h
                  ∙ ap (λ l. record (called i counter n done [] s) { errors = l })
                      (errors-append (s.errors ++ map what v1) v2 v3
                        ∙ errors-append s.errors v1 (v2 ++ v3)))
                (ordered-Emits i done b (noted v2 s2) room e)))))

report_unanswered-Emits :
    (k n : ℕ) (b : Bool) (s : ProtocolChecker)
    → IsMarks s.skipped
    → s.notify_eagerly ≡ b
    → Emits
        (λ (_ : Unit {0}) w. w ≡ noted (missing k n) s)
        b
        (missing k n)
        (report_unanswered k n s)
unfolding report_unanswered
report_unanswered-Emits k zero b s m e = skip-Notifies b s e
report_unanswered-Emits k (suc n) b s m e =
    let v = never_invoked k in
    rw (unanswered-IsMarks k s.skipped m) (
      Emits-then (λ (_ : Unit {0}) w. w ≡ noted (v ∷ []) s)
        (λ (_ : Unit {0}) w. w ≡ noted (missing k (suc n)) s) b (v ∷ []) (missing (k + 1) n)
        (notify v s) (λ _. report_unanswered (k + 1) n) (notify-Notifies v b s e)
        (λ _ w at_. rw (at_) (
          Emits-weaken (λ (_ : Unit {0}) t. t ≡ noted (missing (k + 1) n) (noted (v ∷ []) s))
            (λ (_ : Unit {0}) t. t ≡ noted (missing k (suc n)) s) b (missing (k + 1) n)
            (report_unanswered (k + 1) n (noted (v ∷ []) s))
            (λ _ t u. u ∙ noted-noted (v ∷ []) (missing (k + 1) n) s)
            (report_unanswered-Emits (k + 1) n b (noted (v ∷ []) s) m e))))

-- The loop runs only if there is something to report.
unanswered_loop-Emits :
    (first i : ℕ) (b : Bool) (s : ProtocolChecker)
    → IsMarks s.skipped
    → s.notify_eagerly ≡ b
    → Emits
        (λ (_ : Unit {0}) w. w ≡ noted (missing first (i - first)) s)
        b
        (missing first (i - first))
        (when (ltb first i) (report_unanswered first (i - first)) s)
unanswered_loop-Emits first i b s m e = elim (Bool-cases (ltb first i)) [
  | inl some_ ↦ rw some_ (report_unanswered-Emits first (i - first) b s m e)
  | inr none_ ↦
      let none_left : i - first ≡ 0 = ground arith in rw (none_, none_left) (skip-Notifies b s e)
]

abbrev pub end_notes : ProtocolChecker → List Violation
end_notes s =
    missing (s.latest + 1) (s.i - (s.latest + 1))
    ++ only_if (s.enforce_stream_termination && not (to_bool s.done) && not (to_bool s.aborted))
        never_terminated

pub terminate-Emits :
    (b : Bool) (s : ProtocolChecker)
    → IsMarks s.skipped
    → s.latest + 1 < u64_mod
    → s.notify_eagerly ≡ b
    → Emits (λ l w. l ≡ s.errors ++ map what (end_notes s)) b (end_notes s) (terminate s)
unfolding terminate
terminate-Emits b s m room e =
    let open_ = s.enforce_stream_termination && not (to_bool s.done) && not (to_bool s.aborted) in
    let v1 = missing (s.latest + 1) (s.i - (s.latest + 1)) in
    let v2 = only_if open_ never_terminated in
    rw (next_u64_exact s.latest room) (
      Emits-then (λ (_ : Unit {0}) w. w ≡ noted v1 s)
        (λ (l : List Message) w. l ≡ s.errors ++ map what (v1 ++ v2)) b v1 v2
        (when (ltb (s.latest + 1) s.i) (report_unanswered (s.latest + 1) (s.i - (s.latest + 1))) s)
        (λ _. when open_ (notify never_terminated) >> (do t ← get; pure t.errors))
        (unanswered_loop-Emits (s.latest + 1) s.i b s m e)
        (λ _ w at_. rw (at_) (
          Emits-and (λ (_ : Unit {0}) u. u ≡ noted v2 (noted v1 s))
            (λ (l : List Message) u. l ≡ s.errors ++ map what (v1 ++ v2)) b v2
            (when open_ (notify never_terminated) (noted v1 s)) (λ _. do t ← get; pure t.errors)
            (only_if-Notifies open_ never_terminated b (noted v1 s) e)
            (λ _ u at_u.
              (u.errors, u, refl, ap (λ t. t.errors) at_u ∙ errors-append s.errors v1 v2)))))
