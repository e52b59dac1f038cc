-- ===== src/PullStream/ProtocolChecker/Emits.antt =====
-- What a call of the checker (dk_pull/pull_stream/protocol_checker.h) notifies of, in both modes of
-- `notifyError`: the exception for the first violation, or all of them added to the errors.
use dk_pull.Base.{
  ◌≡◌, refl, sym, ap, ◌∙◌, Bool, true, false, List, [], ◌∷◌, ◌++◌, append-nil, append_assoc, map,
  map-append, if◌then◌else◌,
}
use dk_pull.Base.Action.{
  Action, Message, Result, ok, throw, fatal, out_of_fuel, logic_error, and_then, skip, ◌>>◌,
}
use dk_pull.PullStream.ProtocolChecker.{
  ProtocolChecker, Violation, what, notify, notify_error, when, Method,
}
use dk_pull.PullStream.ProtocolChecker.Violations.{only_if}

-- A call that returned with `P`.
abbrev pub Came : {W A : Type 0} → (A → W → Type 0) → Result A × W → Type 0
Came {W} {A} P p = (a : A) × (w : W) × (p ≡ (ok a, w)) × P a w

-- A call that ended in `p` and has found the violations, in either mode. Where it returned, `P`.
abbrev pub Emits : {W A : Type 0} → (A → W → Type 0) → Bool → List Violation → Result A × W → Type 0
Emits P true [] p = Came P p
Emits P true (v ∷ vs) p = p.0 ≡ throw (logic_error (what v))
Emits P false vs p = Came P p

thrown-then :
    {W A B : Type 0} (p : Result A × W) (f : A → Action W B) (m : Message)
    → p.0 ≡ throw (logic_error m)
    → (and_then p f).0 ≡ throw (logic_error m)
thrown-then (ok a, w) f m h = absurd (cc)
thrown-then (throw e, w) f m h = cc
thrown-then (fatal, w) f m h = absurd (cc)
thrown-then (out_of_fuel, w) f m h = absurd (cc)

pub Emits-then :
    {W A B : Type 0} (P : A → W → Type 0) (Q : B → W → Type 0) (b : Bool) (vs ws : List Violation)
    (p : Result A × W) (f : A → Action W B)
    → Emits P b vs p
    → ((a : A) (w : W) → P a w → Emits Q b ws (f a w))
    → Emits Q b (vs ++ ws) (and_then p f)
Emits-then P Q true [] ws p f (a, w, e, h) k = rw e (k a w h)
Emits-then P Q true (v ∷ vs) ws p f h k = thrown-then p f (what v) h
Emits-then P Q false vs ws p f (a, w, e, h) k = rw e (k a w h)

-- More is known where it returned.
pub Emits-weaken :
    {W A : Type 0} (P Q : A → W → Type 0) (b : Bool) (vs : List Violation) (p : Result A × W)
    → ((a : A) (w : W) → P a w → Q a w)
    → Emits P b vs p
    → Emits Q b vs p
Emits-weaken P Q true [] p k (a, w, e, h) = (a, w, e, k a w h)
Emits-weaken P Q true (v ∷ vs) p k h = h
Emits-weaken P Q false vs p k (a, w, e, h) = (a, w, e, k a w h)

-- Of the state, the errors alone change.
abbrev pub noted : List Violation → ProtocolChecker → ProtocolChecker
noted vs s = record s { errors = s.errors ++ map what vs }

pub errors-append :
    (l : List Message) (vs ws : List Violation)
    → (l ++ map what vs) ++ map what ws ≡ l ++ map what (vs ++ ws)
errors-append l vs ws =
    append_assoc l (map what vs) (map what ws) ∙ ap (λ m. l ++ m) (sym (map-append what vs ws))

pub noted_none : (s : ProtocolChecker) → noted [] s ≡ s
noted_none s = ap (λ l. record s { errors = l }) (append-nil s.errors)

pub noted-noted :
    (vs ws : List Violation) (s : ProtocolChecker) → noted ws (noted vs s) ≡ noted (vs ++ ws) s
noted-noted vs ws s = ap (λ l. record s { errors = l }) (errors-append s.errors vs ws)

-- A method that does nothing but notify of these.
abbrev pub Notifies : List Violation → Method (Unit {0}) → Type 0
Notifies vs m =
    (b : Bool) (s : ProtocolChecker)
    → s.notify_eagerly ≡ b
    → Emits (λ (_ : Unit {0}) w. w ≡ noted vs s) b vs (m s)

pub notify-Notifies : (v : Violation) → Notifies (v ∷ []) (notify v)
unfolding notify_error
notify-Notifies v true s e = rw e refl
notify-Notifies v false s e = rw e (tt, _, refl, refl)

pub skip-Notifies : Notifies [] skip
skip-Notifies true s e = (tt, s, refl, sym (noted_none s))
skip-Notifies false s e = (tt, s, refl, sym (noted_none s))

pub then-Notifies :
    (vs ws : List Violation) (m k : Method (Unit {0}))
    → Notifies vs m
    → Notifies ws k
    → Notifies (vs ++ ws) (m >> k)
then-Notifies vs ws m k h g b s e =
    Emits-then (λ (_ : Unit {0}) w. w ≡ noted vs s) (λ (_ : Unit {0}) w. w ≡ noted (vs ++ ws) s) b
      vs ws (m s) (λ _. k) (h b s e)
      (λ _ w at_. rw (at_) (
        Emits-weaken (λ (_ : Unit {0}) t. t ≡ noted ws (noted vs s))
          (λ (_ : Unit {0}) t. t ≡ noted (vs ++ ws) s) b ws (k (noted vs s))
          (λ _ t u. u ∙ noted-noted vs ws s) (g b (noted vs s) e)))

pub when-Notifies :
    (test : Bool) (vs : List Violation) (m : Method (Unit {0}))
    → Notifies vs m
    → Notifies (if test then vs else []) (when test m)
when-Notifies true vs m h = h
when-Notifies false vs m h = skip-Notifies

pub only_if-Notifies :
    (test : Bool) (v : Violation) → Notifies (only_if test v) (when test (notify v))
only_if-Notifies true v = notify-Notifies v
only_if-Notifies false v = skip-Notifies

-- Another call that returns and finds nothing.
pub Emits-and :
    {W A B : Type 0} (P : A → W → Type 0) (Q : B → W → Type 0) (b : Bool) (vs : List Violation)
    (p : Result A × W) (f : A → Action W B)
    → Emits P b vs p
    → ((a : A) (w : W) → P a w → Came Q (f a w))
    → Emits Q b vs (and_then p f)
Emits-and P Q true [] p f (a, w, e, h) k = rw e (k a w h)
Emits-and P Q true (v ∷ vs) p f h k = thrown-then p f (what v) h
Emits-and P Q false vs p f (a, w, e, h) k = rw e (k a w h)

pub Emits-none :
    {W A : Type 0} (P : A → W → Type 0) (b : Bool) (p : Result A × W) → Came P p → Emits P b [] p
Emits-none P true p c = c
Emits-none P false p c = c
