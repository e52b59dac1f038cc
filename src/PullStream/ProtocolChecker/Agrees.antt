-- ===== src/PullStream/ProtocolChecker/Agrees.antt =====
-- The members of the checker (dk_pull/pull_stream/protocol_checker.h) and what its closures capture,
-- against what the events so far have been.
use dk_pull.Base.{
  ℕ, suc, ◌+◌, ◌≤◌, ◌≡◌, refl, sym, ap, ◌∙◌, Bool, true, false, List, [], ◌∷◌, ◌++◌, map, length,
  length-append, none, some, arith, ◌||◌, inl, inr, Bool-cases,
}
use dk_pull.Base.Ref.{zoom}
use dk_pull.Types.EndOrError.{Abort, Done, to_bool}
use dk_pull.PullStream.ProtocolChecker.{insert, ProtocolChecker, Options, Violation, what, Method}
use dk_pull.PullStream.ProtocolChecker.Protocol.{request}
use dk_pull.PullStream.ProtocolChecker.Trace.{Trace, the_checker}
use dk_pull.PullStream.ProtocolChecker.Cells.{
  closures, ones, closures-append_true, closures-append_false,
}
use dk_pull.PullStream.ProtocolChecker.Tallies.{
  tallies, length-tallies, tallies-append_true, tallies-append_false,
}
use dk_pull.PullStream.ProtocolChecker.InOrder.{first_end}
use dk_pull.PullStream.ProtocolChecker.Terminate.{IsMarks, insert-IsMarks}
use dk_pull.PullStream.ProtocolChecker.Violations.{Ledger, breaches, entered}
use dk_pull.PullStream.ProtocolChecker.Emits.{Emits, noted, errors-append}
use dk_pull.PullStream.ProtocolChecker.Checks.{request_notes}

pub to_bool-first_end :
    (old new : Done) → to_bool (first_end old new) ≡ (to_bool old || to_bool new)
to_bool-first_end old new = elim (Bool-cases (to_bool old)) [ inl e ↦ rw e e | inr e ↦ rw e refl ]

-- The trace after a request.
abbrev pub requested : Abort → Bool → Trace → Trace
requested abort true t = record {
  checker = record t.checker {
    aborted = first_end t.checker.aborted abort;
    i = t.checker.i + 1;
    counters = t.checker.counters ++ 0 ∷ [];
  };
  issued = t.issued ++ some (record { i = t.checker.i; counter = length t.checker.counters }) ∷ [];
}
requested abort false t = record {
  checker = record t.checker {
    aborted = first_end t.checker.aborted abort;
    i = t.checker.i + 1;
    skipped = insert t.checker.i true t.checker.skipped;
  };
  issued = t.issued ++ none ∷ [];
}

-- The checker and what its closures capture, after `n` events with the violations `vs`.
pub record Agrees (options : Options) (l : Ledger) (n : ℕ) (vs : List Violation) (t : Trace)
    : Type 0 where
  pub same_forbid : t.checker.forbid_extra_requests ≡ options.forbid_extra_requests
  pub same_enforce : t.checker.enforce_stream_termination ≡ options.enforce_stream_termination
  pub same_mode : t.checker.notify_eagerly ≡ options.notify_eagerly
  pub same_aborted : to_bool t.checker.aborted ≡ l.aborted
  pub same_ended : to_bool t.checker.done ≡ l.ended
  pub next_number : t.checker.i ≡ length l.callbacks + 1
  pub same_latest : t.checker.latest ≡ l.reached
  pub marks : IsMarks t.checker.skipped
  pub same_issued : t.issued ≡ closures l.callbacks 1 0
  pub same_counters : t.checker.counters ≡ tallies l.callbacks l.tally
  pub unasked : (k : ℕ) → length l.callbacks ≤ k → l.tally k ≡ 0
  pub few_answers : (k : ℕ) → l.tally k ≤ n
  pub few_requests : length l.callbacks ≤ n
  pub reached_asked : l.reached ≤ length l.callbacks
  pub same_errors : t.checker.errors ≡ map what vs

pub zoom-Emits :
    {A : Type 0} (P : A → ProtocolChecker → Type 0) (Q : A → Trace → Type 0) (m : Method A)
    (b : Bool) (vs : List Violation) (t : Trace)
    → ((a : A) (s : ProtocolChecker) → P a s → Q a (record t { checker = s }))
    → Emits P b vs (m t.checker)
    → Emits Q b vs (zoom the_checker m t)
zoom-Emits P Q m true [] t k (a, s, e, h) =
    (a, record t { checker = s }, ap (λ p. (p.0, record t { checker = p.1 })) e, k a s h)
zoom-Emits P Q m true (v ∷ vs) t k h = h
zoom-Emits P Q m false vs t k (a, s, e, h) =
    (a, record t { checker = s }, ap (λ p. (p.0, record t { checker = p.1 })) e, k a s h)

module _ (options : Options) (l : Ledger) (n : ℕ) (vs : List Violation) (t : Trace)
    (f : Agrees options l n vs t) where
  pub request-same :
      (abort : Abort) (callback : Bool)
      → request_notes t.checker.forbid_extra_requests
          (to_bool t.checker.aborted)
          (to_bool t.checker.done)
          (to_bool abort)
        ≡ breaches options.forbid_extra_requests l (request abort callback)
  request-same abort callback = rw (f.same_forbid, f.same_aborted, f.same_ended) refl

  pub errors-same : (ws : List Violation) → t.checker.errors ++ map what ws ≡ map what (vs ++ ws)
  errors-same ws = rw (f.same_errors) (errors-append [] vs ws)

  issued_next :
      t.issued ++ some (record { i = t.checker.i; counter = length t.checker.counters }) ∷ []
      ≡ closures (l.callbacks ++ true ∷ []) 1 0
  issued_next =
      let i_eq : t.checker.i ≡ 1 + length l.callbacks = omega (arith, f.next_number) in
      let c_eq : length t.checker.counters ≡ 0 + ones l.callbacks =
        omega (arith, ap length f.same_counters, length-tallies l.callbacks l.tally) in
      rw (f.same_issued, i_eq, c_eq) (sym (closures-append_true l.callbacks 1 0))

  counters_next : t.checker.counters ++ 0 ∷ [] ≡ tallies (l.callbacks ++ true ∷ []) l.tally
  counters_next =
      ap (λ c. c ++ 0 ∷ []) f.same_counters
      ∙ ap (λ k. tallies l.callbacks l.tally ++ k ∷ [])
          (sym (f.unasked (length l.callbacks) (omega arith)))
      ∙ sym (tallies-append_true l.callbacks l.tally)

  -- The trace after a request that was checked.
  pub requested-Agrees :
      (abort : Abort) (callback : Bool) (ws : List Violation)
      → Agrees options
          (entered l (request abort callback))
          (suc n)
          (vs ++ ws)
          (requested abort callback (record t { checker = noted ws t.checker }))
  requested-Agrees abort true ws = record {
    same_forbid = f.same_forbid;
    same_enforce = f.same_enforce;
    same_mode = f.same_mode;
    same_aborted = rw (to_bool-first_end, f.same_aborted);
    same_ended = f.same_ended;
    next_number = omega (arith, f.next_number, length-append l.callbacks (true ∷ []));
    same_latest = f.same_latest;
    marks = f.marks;
    same_issued = issued_next;
    same_counters = counters_next;
    unasked = λ k le. f.unasked k (omega (arith, length-append l.callbacks (true ∷ [])));
    few_answers = λ k. omega (arith, f.few_answers k);
    few_requests = omega (arith, f.few_requests, length-append l.callbacks (true ∷ []));
    reached_asked = omega (arith, f.reached_asked, length-append l.callbacks (true ∷ []));
    same_errors = errors-same ws;
  }
  requested-Agrees abort false ws = record {
    same_forbid = f.same_forbid;
    same_enforce = f.same_enforce;
    same_mode = f.same_mode;
    same_aborted = rw (to_bool-first_end, f.same_aborted);
    same_ended = f.same_ended;
    next_number = omega (arith, f.next_number, length-append l.callbacks (false ∷ []));
    same_latest = f.same_latest;
    marks = insert-IsMarks t.checker.i t.checker.skipped f.marks;
    same_issued = rw (f.same_issued) (sym (closures-append_false l.callbacks 1 0));
    same_counters = f.same_counters ∙ sym (tallies-append_false l.callbacks l.tally);
    unasked = λ k le. f.unasked k (omega (arith, length-append l.callbacks (false ∷ [])));
    few_answers = λ k. omega (arith, f.few_answers k);
    few_requests = omega (arith, f.few_requests, length-append l.callbacks (false ∷ []));
    reached_asked = omega (arith, f.reached_asked, length-append l.callbacks (false ∷ []));
    same_errors = errors-same ws;
  }
