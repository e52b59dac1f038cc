-- ===== src/PullStream/ProtocolChecker/Follows.antt =====
-- The two views of the events so far, of the list of all violations and of the protocol.
use dk_pull.Base.{
  ℕ, ◌+◌, ◌<◌, ◌≤◌, ◌≡◌, ◌≢◌, refl, Bool, true, false, ◌&&◌, inl, inr, Bool-cases, [], ◌∷◌, ◌==◌,
  ==-false, ltb-false, length, length-append, get_or, arith,
}
use dk_pull.Types.EndOrError.{Done}
use dk_pull.PullStream.ProtocolChecker.Protocol.{
  Event, request, answer, History, at_first, allows, after,
}
use dk_pull.PullStream.ProtocolChecker.Cells.{get_or-lt}
use dk_pull.PullStream.ProtocolChecker.Violations.{Ledger, blank, entered, in_order}

-- As long as the protocol is kept, the two views of the past agree: the answers came in order, one
-- for each request.
pub record Follows (l : Ledger) (h : History) : Type 0 where
  pub same_aborted : l.aborted ≡ h.aborted
  pub same_ended : l.ended ≡ h.ended
  pub same_callbacks : l.callbacks ≡ h.callbacks
  pub same_reached : l.reached ≡ h.answered
  pub answered_once : (k : ℕ) → k < h.answered → l.tally k ≡ 1
  pub not_answered : (k : ℕ) → h.answered ≤ k → l.tally k ≡ 0
  pub few_answers : h.answered ≤ length h.callbacks

next-answered : (b : Bool) (k answered : ℕ) → (b && k == answered) ≡ true → k ≡ answered
next-answered b k answered h = ground arith

-- An answer that comes in order, to a request with a callback.
answered-Follows :
    (l : Ledger) (h : History) (k : ℕ) (done : Done)
    → get_or h.callbacks k false ≡ true
    → k ≡ h.answered
    → Follows l h
    → Follows (entered l (answer k done)) (after h (answer k done))
answered-Follows l h k done heard eq f =
    let heard_l : get_or l.callbacks k false ≡ true = rw (f.same_callbacks) heard in
    let orderly : in_order l (1 + k) ≡ true =
      rw
        (
          f.same_reached,
          ltb-false (1 + k) h.answered (omega arith),
          ltb-false (h.answered + 1) (1 + k) (omega arith),
        )
        refl in
    rw (heard, heard_l)
      (record {
        same_aborted = f.same_aborted;
        same_ended = rw (f.same_ended) refl;
        same_callbacks = f.same_callbacks;
        same_reached = rw orderly (omega (arith, eq));
        answered_once = λ j lt. elim (Bool-cases (j == k)) [
          | inl e ↦ rw (e, f.not_answered k (omega arith)) refl
          | inr e ↦ let ne : j ≢ k = ground arith in rw e (f.answered_once j (omega arith))
        ];
        not_answered = λ j le. rw (==-false j k (omega arith)) (f.not_answered j (omega arith));
        few_answers = omega (arith, get_or-lt h.callbacks k heard);
      })

-- An event that the protocol allows.
pub entered-Follows :
    (forbid : Bool) (l : Ledger) (h : History) (e : Event)
    → allows forbid h e ≡ true
    → Follows l h
    → Follows (entered l e) (after h e)
entered-Follows forbid l h (request abort callback) ok f = record {
  same_aborted = rw (f.same_aborted) refl;
  same_ended = f.same_ended;
  same_callbacks = rw (f.same_callbacks) refl;
  same_reached = f.same_reached;
  answered_once = f.answered_once;
  not_answered = f.not_answered;
  few_answers = omega (arith, f.few_answers, length-append h.callbacks (callback ∷ []));
}
entered-Follows forbid l h (answer k done) ok f = elim (Bool-cases (get_or h.callbacks k false)) [
  | inr unheard ↦
      let unheard_l : get_or l.callbacks k false ≡ false = rw (f.same_callbacks) unheard in
      rw (unheard, unheard_l) f
  | inl heard ↦ answered-Follows l h k done heard (next-answered _ k h.answered (rw heard at ok)) f
]

pub blank-Follows : Follows blank at_first
blank-Follows = record {
  same_aborted = refl;
  same_ended = refl;
  same_callbacks = refl;
  same_reached = refl;
  answered_once = λ k lt. absurd (omega arith);
  not_answered = λ k le. refl;
  few_answers = omega arith;
}
