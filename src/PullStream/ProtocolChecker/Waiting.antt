-- ===== src/PullStream/ProtocolChecker/Waiting.antt =====
-- The checker (`Through` in dk_pull/pull_stream/protocol_checker.h) in front of a source that may
-- answer later.
use dk_pull.Base.{
  suc, ◌+◌, ◌-◌, ◌≡◌, refl, sym, ◌∙◌, ap, List, [], ◌∷◌, ◌++◌, some, length, length-append, arith,
}
use dk_pull.Base.Action.{Action}
use dk_pull.Base.Ref.{Ref, Apart}
use dk_pull.Types.EndOrError.{Done, going}
use dk_pull.Types.Stream.{Source, SourceCallback}
use dk_pull.PullStream.Deferring.{Reply, gives, ends, Request, answers, waits, Deferring, Spares}
use dk_pull.PullStream.ProtocolChecker.{ProtocolChecker}
use dk_pull.PullStream.ProtocolChecker.Wrap.{wrapped, through}
use dk_pull.PullStream.ProtocolChecker.InOrder.{asked}
use dk_pull.PullStream.ProtocolChecker.Transparent.{
  IsOpen, IsDone, behind, wrapped-next, behind-IsOpen, behind-IsDone, through-open,
}

-- The source calls the callback that the checker gave it with the last request.
abbrev pub through_delivery {ℓ κ} :
    {W : Type ℓ} {T : Type κ}
    → Ref W ProtocolChecker
    → (SourceCallback W T → Action W (Unit {0}))
    → SourceCallback W T
    → Action W (Unit {0})
through_delivery self deliver cb w =
    let s = self.get w in deliver (wrapped self (s.latest + 1) (length s.counters - 1) cb) w

-- A frame of the source and one of the source behind the checker, which may change the checker.
pub record Frames {ℓ φ ψ} {W : Type ℓ} (self : Ref W ProtocolChecker) (Inner : W → W → Type φ)
    (Outer : W → W → Type ψ) : Type (ℓ ⊔ φ ⊔ ψ) where
  pub still : (w w' : W) → Inner w w' → self.get w' ≡ self.get w
  pub around :
      (s s' : ProtocolChecker) (w w' : W) → Inner (self.set s w) w' → Outer w (self.set s' w')

module _ {ℓ κ μ φ ψ} {W : Type ℓ} {T : Type κ} {source : Source W T}
    {deliver : SourceCallback W T → Action W (Unit {0})} {Left Waits : List T → W → Type μ}
    {Closed : W → Type μ} {Inner : W → W → Type φ} {Outer : W → W → Type ψ} {e : Done}
    (self : Ref W ProtocolChecker) (c : Deferring source deliver Left Waits Closed Inner e)
    (spares : Spares self Left Waits Closed) (frames : Frames self Inner Outer) where
  abbrev pub Checked : List T → W → Type μ
  Checked xs w = Left xs w × IsOpen (length xs) (self.get w)

  abbrev pub CheckedEnd : W → Type μ
  CheckedEnd w = Closed w × IsDone e (self.get w)

  -- The last request is not answered yet.
  abbrev pub Unanswered : List T → W → Type μ
  Unanswered xs w =
      Waits xs w × ((s : ProtocolChecker) × (self.get w ≡ asked going s) × IsOpen (length xs) s)

  -- A reply of the source to the callback that it was given is one to the client's.
  through-Reply :
      (act act' : SourceCallback W T → Action W (Unit {0})) (xs : List T) (s t : ProtocolChecker)
      (w w0 : W)
      → ((cb : SourceCallback W T) → act' cb w0 ≡ act (wrapped self s.i (length s.counters) cb) w)
      → w ≡ self.set t w0
      → self.get w ≡ asked going s
      → IsOpen (length xs) s
      → Reply act Left Closed Inner e xs w
      → Reply act' Checked CheckedEnd Outer e xs w0
  through-Reply act act' xs s t w w0 same from h o (gives x rest w' shape calls left frame) =
      let h' : self.get w' ≡ asked going s = frames.still w w' frame ∙ h in
      let o' : IsOpen (suc (length rest)) s = (rw (ap length shape) at o) in
      gives x rest (self.set (behind going s) w') shape
        (λ cb. same cb ∙ calls _ ∙ wrapped-next self (suc (length rest)) s cb going x w' o' h')
        (
          spares.left rest (behind going s) w' left,
          rw self.get-set (behind-IsOpen (length rest) s o'),
        )
        (frames.around t (behind going s) w0 w' (rw from at frame))
  through-Reply act act' xs s t w w0 same from h o (ends v w' shape calls closed frame) =
      let h' : self.get w' ≡ asked going s = frames.still w w' frame ∙ h in
      ends v (self.set (behind e s) w') shape
        (λ cb. same cb ∙ calls _ ∙ wrapped-next self (length xs) s cb e v w' o h')
        (spares.closed (behind e s) w' closed, rw self.get-set (behind-IsDone (length xs) e s o))
        (frames.around t (behind e s) w0 w' (rw from at frame))

  through-Request :
      (xs : List T) (w : W)
      → Checked xs w
      → Request (through self source) Checked Unanswered CheckedEnd Outer e xs w
  through-Request xs w (left, o) =
      let s = self.get w in
      let w1 = self.set (asked going s) w in
      let passes : (cb : SourceCallback W T)
          → through self source going (some cb) w
            ≡ source going (some (wrapped self s.i (length s.counters) cb)) w1 =
        λ cb.
          through-open self source going cb w o.not_aborted o.not_done (omega (arith, o.room)) in
      elim (c.request xs w1 (spares.left xs (asked going s) w left)) [
        | answers r ↦ answers (
            through-Reply (λ cb. source going (some cb)) (λ cb. through self source going (some cb))
              xs s (asked going s) w1 w passes refl (self.get-set _ w) o r)
        | waits w' run kept frame ↦
            let h : self.get w' ≡ asked going s = frames.still w1 w' frame ∙ self.get-set _ w in
            waits w' (λ cb. passes cb ∙ run _) (kept, (s, h, o))
              (rw (self.set-get w') at (frames.around (asked going s) (self.get w') w w' frame))
      ]

  same-callback :
      (s : ProtocolChecker) (w : W)
      → self.get w ≡ asked going s
      → s.i ≡ s.latest + 1
      → (cb : SourceCallback W T)
      → through_delivery self deliver cb w ≡ deliver (wrapped self s.i (length s.counters) cb) w
  same-callback s w h in_order cb =
      let last : length (s.counters ++ 0 ∷ []) - 1 ≡ length s.counters =
        omega (arith, length-append s.counters (0 ∷ [])) in
      rw (h, last, in_order) refl

  pub through-Deferring :
      Deferring
        (through self source)
        (through_delivery self deliver)
        Checked
        Unanswered
        CheckedEnd
        Outer
        e
  through-Deferring = record {
    over = c.over;
    request = through-Request;
    reply = λ xs w (kept, (s, h, o)).
        through-Reply deliver (through_delivery self deliver) xs s (self.get w) w w
          (same-callback s w h o.in_order) (sym (self.set-get w)) h o (c.reply xs w kept);
  }

  -- What the source leaves alone, it leaves alone behind the checker.
  module _ {λ'} {X : Type λ'} (r : Ref W X) (a : Apart r self) where
    pub through-Spares : Spares r Left Waits Closed → Spares r Checked Unanswered CheckedEnd
    through-Spares spared = record {
      left = λ xs x w (left, o). (spared.left xs x w left, rw (a.get-set_right x w) o);
      waits =
          λ xs x w (kept, (s, h, o)). (spared.waits xs x w kept, (s, a.get-set_right x w ∙ h, o));
      closed = λ x w (closed, d). (spared.closed x w closed, rw (a.get-set_right x w) d);
    }
