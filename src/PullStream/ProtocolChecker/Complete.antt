-- ===== src/PullStream/ProtocolChecker/Complete.antt =====
-- A run of the checker (dk_pull/pull_stream/protocol_checker.h) against the list of all violations
-- of the run.
use dk_pull.Base.{
  ℕ, suc, ◌+◌, ◌-◌, ◌<◌, ◌≡◌, refl, ap, ◌∙◌, Bool, true, false, not, ◌&&◌, ◌||◌, List, [], ◌∷◌,
  ◌++◌, append-nil, append_assoc, map, inl, inr, Bool-cases, length, get_elem?, u64_mod, arith,
}
use dk_pull.Base.Action.{Action, Message, Result, ok, throw, fatal, out_of_fuel, and_then, ◌>>=◌}
use dk_pull.Base.Ref.{zoom}
use dk_pull.Types.EndOrError.{Abort, to_bool}
use dk_pull.PullStream.ProtocolChecker.{
  Options, Violation, what, never_terminated, new_checker, check_request, take_number, mark_skipped,
  terminate,
}
use dk_pull.PullStream.ProtocolChecker.Protocol.{Event, request, answer}
use dk_pull.PullStream.ProtocolChecker.Trace.{
  Trace, the_checker, hand_over, step, run, report, new_trace,
}
use dk_pull.PullStream.ProtocolChecker.Cells.{closures-get_none}
use dk_pull.PullStream.ProtocolChecker.InOrder.{take_number_lem, new_counter_lem}
use dk_pull.PullStream.ProtocolChecker.Violations.{
  Ledger, blank, has_callback, breaches, entered, end_breaches, violations, verdict, missing,
  only_if,
}
use dk_pull.PullStream.ProtocolChecker.Emits.{
  Emits, Emits-then, Emits-and, Emits-weaken, Emits-none, noted,
}
use dk_pull.PullStream.ProtocolChecker.Checks.{
  request_notes, check_request-Emits, end_notes, terminate-Emits,
}
use dk_pull.PullStream.ProtocolChecker.Agrees.{
  requested, Agrees, zoom-Emits, request-same, errors-same, requested-Agrees,
}
use dk_pull.PullStream.ProtocolChecker.Answers.{answer-Emits}

and_then-and_then :
    {W A B C : Type 0} (p : Result A × W) (f : A → Action W B) (g : B → Action W C)
    → and_then (and_then p f) g ≡ and_then p (λ a w. and_then (f a w) g)
and_then-and_then (ok a, w) f g = refl
and_then-and_then (throw e, w) f g = refl
and_then-and_then (fatal, w) f g = refl
and_then-and_then (out_of_fuel, w) f g = refl

neither : (x a d : Bool) → (x && not d && not a) ≡ (x && not (a || d))
neither x a d = ground arith

module _ (options : Options) where
  -- A step finds the violations of its event.
  abbrev Steps : Ledger → ℕ → List Violation → Event → Trace → Type 0
  Steps l n vs e t =
      Emits
        (λ (_ : Unit {0}) t'.
          Agrees options (entered l e) (suc n) (vs ++ breaches options.forbid_extra_requests l e)
            t')
        options.notify_eagerly (breaches options.forbid_extra_requests l e) (step e t)

  -- The request is handed over as it would be without violations.
  hand_over-requested :
      (abort : Abort) (callback : Bool) (t : Trace)
      → t.checker.i + 1 < u64_mod
      → (do i ← zoom the_checker (take_number abort); hand_over callback i) t
        ≡ (ok tt, requested abort callback t)
  unfolding mark_skipped
  hand_over-requested abort true t lt =
      rw (take_number_lem abort t.checker lt, new_counter_lem) refl
  hand_over-requested abort false t lt = rw (take_number_lem abort t.checker lt) refl

  request-Emits :
      (l : Ledger) (n : ℕ) (vs : List Violation) (t : Trace) (f : Agrees options l n vs t)
      (abort : Abort) (callback : Bool)
      → n + 2 < u64_mod
      → Steps l n vs (request abort callback) t
  unfolding step
  request-Emits l n vs t f abort callback room =
      let forbid = t.checker.forbid_extra_requests in
      let ws =
        request_notes forbid (to_bool t.checker.aborted) (to_bool t.checker.done) (to_bool abort) in
      let t1 = record t { checker = noted ws t.checker } in
      rw (← request-same options l n vs t f abort callback) (
        Emits-and (λ (_ : Unit {0}) t'. t' ≡ t1)
          (λ (_ : Unit {0}) t'.
            Agrees options (entered l (request abort callback)) (suc n) (vs ++ ws) t')
          options.notify_eagerly ws (zoom the_checker (check_request abort) t) _
          (zoom-Emits (λ (_ : Unit {0}) s. s ≡ noted ws t.checker) (λ (_ : Unit {0}) t'. t' ≡ t1)
            (check_request abort) options.notify_eagerly ws t
            (λ _ s at_. ap (λ s'. record t { checker = s' }) at_)
            (check_request-Emits abort options.notify_eagerly t.checker f.same_mode))
          (λ _ t' at_. rw (at_) (
            tt,
            requested abort callback t1,
            hand_over-requested abort callback t1 (omega (arith, f.next_number, f.few_requests)),
            requested-Agrees options l n vs t f abort callback ws,
          )))

  later-Agrees :
      (l : Ledger) (n : ℕ) (vs : List Violation) (t : Trace)
      → Agrees options l n vs t
      → Agrees options l (suc n) vs t
  later-Agrees l n vs t f = record {
    same_forbid = f.same_forbid;
    same_enforce = f.same_enforce;
    same_mode = f.same_mode;
    same_aborted = f.same_aborted;
    same_ended = f.same_ended;
    next_number = f.next_number;
    same_latest = f.same_latest;
    marks = f.marks;
    same_issued = f.same_issued;
    same_counters = f.same_counters;
    unasked = f.unasked;
    reached_asked = f.reached_asked;
    same_errors = f.same_errors;
    few_answers = λ k. omega (arith, f.few_answers k);
    few_requests = omega (arith, f.few_requests);
  }

  step-Emits :
      (l : Ledger) (n : ℕ) (vs : List Violation) (t : Trace) (e : Event)
      → Agrees options l n vs t
      → n + 2 < u64_mod
      → Steps l n vs e t
  unfolding step
  step-Emits l n vs t (request abort callback) f room = request-Emits l n vs t f abort callback room
  step-Emits l n vs t (answer k done) f room = elim (Bool-cases (has_callback l k)) [
    | inl cb ↦ answer-Emits options l n vs t f k done cb room
    | inr no_cb ↦
        let none_found =
          Emits-none (λ (_ : Unit {0}) t'. Agrees options l (suc n) vs t') options.notify_eagerly
            (ok tt, t) (tt, t, refl, later-Agrees l n vs t f) in
        elim (closures-get_none l.callbacks 1 0 k no_cb) [
          | inl e ↦ rw (no_cb, ap (λ c. get_elem? c k) f.same_issued ∙ e, append-nil vs) none_found
          | inr e ↦ rw (no_cb, ap (λ c. get_elem? c k) f.same_issued ∙ e, append-nil vs) none_found
        ]
  ]

  end-same :
      (l : Ledger) (n : ℕ) (vs : List Violation) (t : Trace)
      → Agrees options l n vs t
      → end_notes t.checker ≡ end_breaches options.enforce_stream_termination l
  end-same l n vs t f =
      let rest : t.checker.i - (t.checker.latest + 1) ≡ length l.callbacks - l.reached =
        omega (arith, f.next_number, f.same_latest) in
      rw (rest, f.same_latest, f.same_enforce, f.same_aborted, f.same_ended)
        (ap
          (λ b.
            missing (l.reached + 1) (length l.callbacks - l.reached) ++ only_if b never_terminated)
          (neither options.enforce_stream_termination l.aborted l.ended))

  -- A run and `Terminate` find the violations that are to come.
  report-Emits :
      (es : List Event) (l : Ledger) (n : ℕ) (vs : List Violation) (t : Trace)
      → Agrees options l n vs t
      → n + length es + 2 < u64_mod
      → let ws = violations options.forbid_extra_requests options.enforce_stream_termination l es in
        Emits (λ ms t'. ms ≡ map what (vs ++ ws)) options.notify_eagerly ws (report es t)
  unfolding report run violations
  report-Emits [] l n vs t f room = rw (← end-same l n vs t f) (
      zoom-Emits (λ ms s. ms ≡ t.checker.errors ++ map what (end_notes t.checker))
        (λ ms t'. ms ≡ map what (vs ++ end_notes t.checker)) terminate options.notify_eagerly
        (end_notes t.checker) t (λ ms s h. h ∙ errors-same options l n vs t f (end_notes t.checker))
        (terminate-Emits options.notify_eagerly t.checker f.marks
          (omega (arith, f.same_latest, f.reached_asked, f.few_requests)) f.same_mode))
  report-Emits (e ∷ es) l n vs t f room =
      let b = breaches options.forbid_extra_requests l e in
      let ws =
        violations options.forbid_extra_requests options.enforce_stream_termination (entered l e)
          es in
      rw (and_then-and_then (step e t) (λ _. run es) (λ _. zoom the_checker terminate)) (
        Emits-then (λ (_ : Unit {0}) t'. Agrees options (entered l e) (suc n) (vs ++ b) t')
          (λ ms t'. ms ≡ map what (vs ++ (b ++ ws))) options.notify_eagerly b ws (step e t)
          (λ _. report es) (step-Emits l n vs t e f (omega arith))
          (λ _ t' f'.
            Emits-weaken (λ ms t''. ms ≡ map what ((vs ++ b) ++ ws))
              (λ ms t''. ms ≡ map what (vs ++ (b ++ ws))) options.notify_eagerly ws (report es t')
              (λ ms t'' h. h ∙ ap (map what) (append_assoc vs b ws))
              (report-Emits es (entered l e) (suc n) (vs ++ b) t' f' (omega arith))))

new_trace-Agrees : (options : Options) → Agrees options blank 0 [] (new_trace options)
unfolding new_checker
new_trace-Agrees options = record {
  same_forbid = refl;
  same_enforce = refl;
  same_mode = refl;
  same_aborted = refl;
  same_ended = refl;
  next_number = refl;
  same_latest = refl;
  marks = tt;
  same_issued = refl;
  same_counters = refl;
  unasked = λ k le. refl;
  few_answers = λ k. omega arith;
  few_requests = omega arith;
  reached_asked = omega arith;
  same_errors = refl;
}

Emits-verdict :
    (b : Bool) (vs : List Violation) (p : Result (List Message) × Trace)
    → Emits (λ ms t. ms ≡ map what vs) b vs p
    → p.0 ≡ verdict b vs
Emits-verdict true [] p (ms, t, e, h) = cc
Emits-verdict true (v ∷ vs) p h = h
Emits-verdict false vs p (ms, t, e, h) = cc

-- All that a checker says of any run of requests and answers in any interleaving, with fewer than
-- 2^64 - 2 events, and each choice of options. With eager notification, the first violation of the
-- run is thrown; if there is none, nothing throws and `Terminate` returns no errors. Without it,
-- nothing throws, and `Terminate` returns the messages of exactly the violations of the run, all of
-- them and in order.
pub report-verdict :
    (options : Options) (es : List Event)
    → length es + 2 < u64_mod
    → (report es (new_trace options)).0
      ≡ verdict options.notify_eagerly
          (violations options.forbid_extra_requests options.enforce_stream_termination blank es)
report-verdict options es room =
    Emits-verdict options.notify_eagerly _ (report es (new_trace options)) (
      report-Emits options es blank 0 [] (new_trace options) (new_trace-Agrees options)
        (omega arith))
