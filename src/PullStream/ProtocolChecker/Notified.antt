-- ===== src/PullStream/ProtocolChecker/Notified.antt =====
-- How `notifyError` (dk_pull/pull_stream/protocol_checker.h) shows, in both modes: an exception
-- of its own, or an error that is added.
use dk_pull.Base.{
  ◌≡◌, refl, sym, Option, none, some, ◌∙◌, List, ◌++◌, append_assoc, append-nil, Bool, true, false,
  ◌⊎◌, inl, inr, [], ◌∷◌,
}
use dk_pull.Base.Action.{
  ◌>>=◌, Action, Message, Result, ok, throw, fatal, out_of_fuel, logic_error, bad_function_call,
  and_then,
}
use dk_pull.PullStream.ProtocolChecker.{
  ProtocolChecker, Violation, what, notify, notify_error, when, Method,
}

abbrev pub is_ok {ℓ} : {A : Type ℓ} → Result A → Bool
is_ok (ok a) = true
is_ok _ = false

-- The result of a throw of `std::logic_error`.
abbrev pub is_logic_error {ℓ} : {A : Type ℓ} → Result A → Bool
is_logic_error (throw (logic_error m)) = true
is_logic_error _ = false

-- The message of a `std::logic_error` that was thrown.
abbrev pub thrown {ℓ} : {A : Type ℓ} → Result A → Option Message
thrown (throw (logic_error m)) = some m
thrown _ = none

-- A call from `w` that ended in `p`, where `view` finds the checker: `Quiet` if it may have
-- notified, `Notified` if it did, with `v` as the first violation. The next argument is the mode.
module _ {ℓ κ} {W : Type ℓ} {A : Type κ} (view : W → ProtocolChecker) where
  abbrev pub Notified : Violation → Bool → W → Result A × W → Type 0
  Notified v true w p = thrown p.0 ≡ some (what v)
  Notified v false w p =
      (is_ok p.0 ≡ true)
      × ((view p.1).notify_eagerly ≡ false)
      × (more : List Message) × ((view p.1).errors ≡ (view w).errors ++ what v ∷ more)

  abbrev pub Quiet : Bool → W → Result A × W → Type 0
  Quiet true w p =
      (is_logic_error p.0 ≡ true) ⊎ ((is_ok p.0 ≡ true) × ((view p.1).notify_eagerly ≡ true))
  Quiet false w p =
      (is_ok p.0 ≡ true)
      × ((view p.1).notify_eagerly ≡ false)
      × (more : List Message) × ((view p.1).errors ≡ (view w).errors ++ more)

  pub Quiet-of-Notified :
      (v : Violation) (b : Bool) (w : W) (p : Result A × W) → Notified v b w p → Quiet b w p
  Quiet-of-Notified v true w (ok a, w') h = absurd (cc)
  Quiet-of-Notified v true w (throw (logic_error m), w') h = inl refl
  Quiet-of-Notified v true w (throw bad_function_call, w') h = absurd (cc)
  Quiet-of-Notified v true w (fatal, w') h = absurd (cc)
  Quiet-of-Notified v true w (out_of_fuel, w') h = absurd (cc)
  Quiet-of-Notified v false w p (fine, mode, more, e) = (fine, mode, what v ∷ more, e)

module _ {ℓ κ μ} {W : Type ℓ} {A : Type κ} {B : Type μ} (view : W → ProtocolChecker)
    (f : A → Action W B) where
  -- Each way to go on is quiet.
  abbrev pub Continues : Bool → Type (ℓ ⊔ κ)
  Continues b = (a : A) (w : W) → (view w).notify_eagerly ≡ b → Quiet view b w (f a w)

  pub Notified-then :
      (v : Violation) (b : Bool) (w : W) (p : Result A × W)
      → Notified view v b w p
      → Continues b
      → Notified view v b w (and_then p f)
  Notified-then v true w (ok a, w') h k = absurd (cc)
  Notified-then v true w (throw (logic_error m), w') h k = h
  Notified-then v true w (throw bad_function_call, w') h k = absurd (cc)
  Notified-then v true w (fatal, w') h k = absurd (cc)
  Notified-then v true w (out_of_fuel, w') h k = absurd (cc)
  Notified-then v false w (ok a, w') (fine, mode, more, e) k =
      let (fine', mode', more', e') = k a w' mode in
      (fine', mode', more ++ more', e' ∙ rw e (append_assoc (view w).errors (what v ∷ more) more'))
  Notified-then v false w (throw m, w') h k = absurd (cc)
  Notified-then v false w (fatal, w') h k = absurd (cc)
  Notified-then v false w (out_of_fuel, w') h k = absurd (cc)

  pub Quiet-then :
      (b : Bool) (w : W) (p : Result A × W)
      → Quiet view b w p
      → Continues b
      → Quiet view b w (and_then p f)
  Quiet-then true w (ok a, w') (inl e) k = absurd (cc)
  Quiet-then true w (ok a, w') (inr (o, e)) k = k a w' e
  Quiet-then true w (throw m, w') (inl e) k = inl e
  Quiet-then true w (throw m, w') (inr (o, e)) k = absurd (cc)
  Quiet-then true w (fatal, w') (inl e) k = absurd (cc)
  Quiet-then true w (fatal, w') (inr (o, e)) k = absurd (cc)
  Quiet-then true w (out_of_fuel, w') (inl e) k = absurd (cc)
  Quiet-then true w (out_of_fuel, w') (inr (o, e)) k = absurd (cc)
  Quiet-then false w (ok a, w') (fine, mode, more, e) k =
      let (fine', mode', more', e') = k a w' mode in
      (fine', mode', more ++ more', e' ∙ rw e (append_assoc (view w).errors more more'))
  Quiet-then false w (throw m, w') h k = absurd (cc)
  Quiet-then false w (fatal, w') h k = absurd (cc)
  Quiet-then false w (out_of_fuel, w') h k = absurd (cc)

-- A method, seen from the checker's own state.
abbrev pub itself : ProtocolChecker → ProtocolChecker
itself s = s

-- A method that is quiet in every state.
abbrev pub IsQuiet {κ} : {A : Type κ} → Method A → Type 0
IsQuiet m = (b : Bool) (s : ProtocolChecker) → s.notify_eagerly ≡ b → Quiet itself b s (m s)

pub notify-Notified :
    (v : Violation) (b : Bool) (s : ProtocolChecker)
    → s.notify_eagerly ≡ b
    → Notified itself v b s (notify v s)
unfolding notify_error
notify-Notified v true s e = rw e refl
notify-Notified v false s e = rw e (refl, refl, [], refl)

pub when-IsQuiet : (test : Bool) (m : Method (Unit {0})) → IsQuiet m → IsQuiet (when test m)
when-IsQuiet true m h b s e = h b s e
when-IsQuiet false m h true s e = inr (refl, e)
when-IsQuiet false m h false s e = (refl, e, [], sym (append-nil s.errors))

pub notify-IsQuiet : (v : Violation) → IsQuiet (notify v)
notify-IsQuiet v b s e = Quiet-of-Notified itself v b s (notify v s) (notify-Notified v b s e)

-- A method that returns and leaves the mode and the errors alone.
pub same-Quiet {κ} :
    {A : Type κ} (b : Bool) (s s' : ProtocolChecker) (a : A)
    → s.notify_eagerly ≡ b
    → s'.notify_eagerly ≡ s.notify_eagerly
    → s'.errors ≡ s.errors
    → Quiet itself b s (ok a, s')
same-Quiet true s s' a e k h = inr (refl, cc)
same-Quiet false s s' a e k h = (refl, cc, [], h ∙ sym (append-nil s.errors))

-- One quiet method after another.
pub then-IsQuiet {κ μ} :
    {A : Type κ} {B : Type μ} (m : Method A) (f : A → Method B)
    → IsQuiet m
    → ((a : A) → IsQuiet (f a))
    → IsQuiet (m >>= f)
then-IsQuiet m f h k b s e = Quiet-then itself f b s (m s) (h b s e) (λ a t. k a b t)

-- A method that notifies in this state, and goes on with a quiet one.
pub Notified-then_lem {κ μ} :
    {A : Type κ} {B : Type μ} (m : Method A) (f : A → Method B) (v : Violation) (b : Bool)
    (s : ProtocolChecker)
    → Notified itself v b s (m s)
    → ((a : A) → IsQuiet (f a))
    → Notified itself v b s ((m >>= f) s)
Notified-then_lem m f v b s h k = Notified-then itself f v b s (m s) h (λ a t. k a b t)

-- A method under a test that holds.
pub when-true :
    (test : Bool) (m : Method (Unit {0})) (v : Violation) (b : Bool) (s : ProtocolChecker)
    → test ≡ true
    → Notified itself v b s (m s)
    → Notified itself v b s (when test m s)
when-true true m v b s e h = h
when-true false m v b s e h = absurd (cc)
