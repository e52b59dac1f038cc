-- ===== src/PullStream/ProtocolChecker/Transparent.antt =====
-- The checker (`Through` in dk_pull/pull_stream/protocol_checker.h) in front of a conforming
-- source, and what holds of its state meanwhile.
use dk_pull.Base.{
  Bool, not, ◌&&◌, ℕ, suc, ◌+◌, ◌<◌, ◌≡◌, refl, ◌∙◌, true, false, List, [], ◌∷◌, some, length,
  u64_mod, arith,
}
use dk_pull.Base.Ref.{Ref, Apart}
use dk_pull.Types.EndOrError.{Abort, Done, going, to_bool}
use dk_pull.Types.Stream.{Source, SourceCallback}
use dk_pull.PullStream.Conforming.{Conforming, Leaves}
use dk_pull.PullStream.ProtocolChecker.{ProtocolChecker}
use dk_pull.PullStream.ProtocolChecker.Wrap.{wrapped, through}
use dk_pull.PullStream.ProtocolChecker.InOrder.{
  asked, answered, check_request-open, take_number-open, new_counter_lem, get_or-append_self,
  check_callback-open,
}

-- The stream is open, each request so far has been answered, `left` more values can be counted in
-- a `uint64_t`, and nothing has been reported.
pub record IsOpen (left : ℕ) (s : ProtocolChecker) : Type 0 where
  pub not_aborted : to_bool s.aborted ≡ false
  pub not_done : to_bool s.done ≡ false
  pub in_order : s.i ≡ s.latest + 1
  pub room : s.i + left + 1 < u64_mod
  pub clean : s.errors ≡ []

-- The stream has ended with `e`, each request has been answered, and nothing has been reported.
pub record IsDone (e : Done) (s : ProtocolChecker) : Type 0 where
  pub is_done : s.done ≡ e
  pub in_order : s.i ≡ s.latest + 1
  pub room : s.i < u64_mod
  pub clean : s.errors ≡ []

and_false : (p : Bool) → (p && false) ≡ false
and_false true = refl
and_false false = refl

-- The state of the checker after a request and its answer.
abbrev pub behind : Done → ProtocolChecker → ProtocolChecker
behind done s = answered s.i (length s.counters) done (asked going s)

module _ {ℓ κ} {W : Type ℓ} {T : Type κ} (self : Ref W ProtocolChecker) where
  -- A request on an open stream reaches the source with the same abort.
  pub through-open :
      (source : Source W T) (abort : Abort) (cb : SourceCallback W T) (w : W)
      → to_bool (self.get w).aborted ≡ false
      → to_bool (self.get w).done ≡ false
      → (self.get w).i + 1 < u64_mod
      → through self source abort (some cb) w
        ≡ source abort
            (some (wrapped self (self.get w).i (length (self.get w).counters) cb))
            (self.set (asked abort (self.get w)) w)
  unfolding through
  through-open source abort cb w a d h =
      rw
        (
          check_request-open abort (self.get w) a d,
          self.set-get,
          take_number-open abort (self.get w) a h,
          self.get-set,
          new_counter_lem,
          self.set-set,
        )
        refl

  pub wrapped-next :
      (n : ℕ) (s : ProtocolChecker) (cb : SourceCallback W T) (done : Done) (x : T) (w : W)
      → IsOpen n s
      → self.get w ≡ asked going s
      → wrapped self s.i (length s.counters) cb done x w ≡ cb done x (self.set (behind done s) w)
  wrapped-next n s cb done x w o h =
      rw
        (
          h,
          check_callback-open s.i (length s.counters) done (asked going s) o.not_done
              (and_false (not (to_bool done))) (get_or-append_self s.counters 0 0) o.in_order
              (omega (arith, o.room)),
        )
        refl

pub behind-IsOpen :
    (n : ℕ) (s : ProtocolChecker)
    → IsOpen (suc n) s
    → IsOpen n (answered s.i (length s.counters) going (asked going s))
behind-IsOpen n s o = record {
  not_aborted = refl;
  not_done = refl;
  in_order = refl;
  room = omega (arith, o.room);
  clean = o.clean;
}

pub behind-IsDone :
    (n : ℕ) (e : Done) (s : ProtocolChecker)
    → IsOpen n s
    → IsDone e (answered s.i (length s.counters) e (asked going s))
behind-IsDone n e s o = record {
  is_done = refl;
  in_order = refl;
  room = omega (arith, o.room);
  clean = o.clean;
}

module _ {ℓ κ μ} {W : Type ℓ} {T : Type κ} {source : Source W T} {Left : List T → W → Type μ}
    {Closed : W → Type μ} {e : Done} {c : Conforming source Left Closed e}
    (self : Ref W ProtocolChecker) (apart : Leaves self c) where
  -- The values that the source has left, in front of a checker that has nothing to report.
  abbrev pub Checked : List T → W → Type μ
  Checked xs w = Left xs w × IsOpen (length xs) (self.get w)

  abbrev pub CheckedEnd : W → Type μ
  CheckedEnd w = Closed w × IsDone e (self.get w)

  abbrev before : W → W
  before w = self.set (asked going (self.get w)) w

  abbrev through_advance : W → W
  through_advance w = self.set (behind going (self.get w)) (c.advance (before w))

  abbrev through_finish : W → W
  through_finish w = self.set (behind e (self.get w)) (c.finish (before w))

  pub through_give :
      (x : T) (xs : List T) (w : W) (cb : SourceCallback W T)
      → Checked (x ∷ xs) w
      → through self source going (some cb) w ≡ cb going x (through_advance w)
  through_give x xs w cb (left, o) =
      let l = apart.set_left (x ∷ xs) (asked going (self.get w)) w left in
      through-open self source going cb w o.not_aborted o.not_done (omega (arith, o.room))
      ∙ c.give x xs (before w) _ l
      ∙ wrapped-next self (suc (length xs)) (self.get w) cb going x (c.advance (before w)) o
          (apart.get_advance x xs (before w) l ∙ self.get-set _ w)

  pub through_end :
      (w : W) (cb : SourceCallback W T)
      → Checked [] w
      → through self source going (some cb) w ≡ cb e c.last (through_finish w)
  through_end w cb (left, o) =
      let l = apart.set_left [] (asked going (self.get w)) w left in
      through-open self source going cb w o.not_aborted o.not_done (omega (arith, o.room))
      ∙ c.end (before w) _ l
      ∙ wrapped-next self 0 (self.get w) cb e c.last (c.finish (before w)) o
          (apart.get_finish (before w) l ∙ self.get-set _ w)

  -- A client sees no difference: the same values, in the same order, and the same end. All the
  -- while the checker counts each answer in order and reports nothing.
  unfoldable pub through-Conforming : Conforming (through self source) Checked CheckedEnd e
  through-Conforming = record {
    advance = through_advance;
    finish = through_finish;
    last = c.last;
    ends = c.ends;
    give = through_give;
    give_left = λ x xs w (left, o). (
      apart.set_left xs _ _ (c.give_left x xs (before w) (apart.set_left (x ∷ xs) _ w left)),
      rw self.get-set (behind-IsOpen (length xs) (self.get w) o),
    );
    end = through_end;
    end_closed = λ w (left, o). (
      apart.set_closed _ _ (c.end_closed (before w) (apart.set_left [] _ w left)),
      rw self.get-set (behind-IsDone 0 e (self.get w) o),
    );
  }

  module _ {λ'} {X : Type λ'} (r : Ref W X) (leaves : Leaves r c) (a : Apart r self) where
    pub through-Leaves : Leaves r through-Conforming
    unfolding through-Conforming
    through-Leaves = record {
      set_left = λ xs x w (left, o). (leaves.set_left xs x w left, rw (a.get-set_right x w) o);
      set_closed = λ x w (closed, d). (leaves.set_closed x w closed, rw (a.get-set_right x w) d);
      get_advance = λ x xs w (left, o).
          a.get-set_left _ _
          ∙ leaves.get_advance x xs (before w) (apart.set_left (x ∷ xs) _ w left)
          ∙ a.get-set_left _ w;
      get_finish = λ w (left, o).
          a.get-set_left _ _
          ∙ leaves.get_finish (before w) (apart.set_left [] _ w left)
          ∙ a.get-set_left _ w;
    }
