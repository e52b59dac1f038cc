-- ===== src/Looper/Keeps.antt =====
-- Invariants of a function of `Looper` (dk_pull/looper/looper.cc) that calls `next` as it likes: what
-- each call of `next` keeps, the whole function keeps.
use dk_pull.Base.Action.{Result, ok, throw, fatal, out_of_fuel, and_then}
use dk_pull.Looper.Scripts.{
  Script, end, fail, change, depending, call_next, try_next, Machine, Call, handled, attempt,
  counted_ask, perform,
}

module _ {ℓ κ} {X : Type ℓ} (P : Machine X → Type κ) where
  -- However the call ends, it keeps `P`.
  abbrev pub Keeps : Call X → Type (ℓ ⊔ κ)
  Keeps m = (w : Machine X) → P w → P (m w).1

  pub then-Keeps :
      (p : Result (Unit {0}) × Machine X) (m : Call X) → P p.1 → Keeps m → P (and_then p (λ _. m)).1
  then-Keeps (ok a, w) m h k = k w h
  then-Keeps (throw e, w) m h k = h
  then-Keeps (fatal, w) m h k = h
  then-Keeps (out_of_fuel, w) m h k = h

  pub handled-Keeps : (p : Result (Unit {0}) × Machine X) → P p.1 → P (handled p).1
  handled-Keeps (ok a, w) h = h
  handled-Keeps (throw e, w) h = h
  handled-Keeps (fatal, w) h = h
  handled-Keeps (out_of_fuel, w) h = h

  -- `P` says nothing of the user's data.
  abbrev pub IgnoresUser : Type (ℓ ⊔ κ)
  IgnoresUser = (x : X) (w : Machine X) → P w → P (record w { user = x })

  pub perform-Keeps :
      IgnoresUser
      → (script : Script X) (next : Call X) → Keeps (counted_ask next)
      → Keeps (perform script next)
  unfolding perform
  perform-Keeps i end next k w h = h
  perform-Keeps i (fail e) next k w h = h
  perform-Keeps i (change f rest) next k w h =
      perform-Keeps i rest next k (record w { user = f w.user }) (i (f w.user) w h)
  perform-Keeps i (depending f) next k w h = perform-Keeps i (f w.user) next k w h
  perform-Keeps i (call_next rest) next k w h =
      then-Keeps (counted_ask next w) (perform rest next) (k w h) (perform-Keeps i rest next k)
  perform-Keeps i (try_next rest) next k w h =
      then-Keeps (attempt (counted_ask next) w) (perform rest next)
        (handled-Keeps (counted_ask next w) (k w h)) (perform-Keeps i rest next k)
