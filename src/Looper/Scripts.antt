-- ===== src/Looper/Scripts.antt =====
-- `Looper` (dk_pull/looper/looper.cc) with a function of which nothing is known but that it calls
-- `next` as often as it likes, in any order with its own work, and catches what `next` throws or
-- throws itself. The machine counts the function's calls and how deeply they are nested.
use dk_pull.Base.{ℕ, zero, suc, ◌+◌, ◌-◌, refl, ltb, if◌then◌else◌}
use dk_pull.Base.Action.{Action, Exception, Result, ok, throw, fatal, out_of_fuel, skip, ◌>>◌}
use dk_pull.Base.Ref.{Ref}
use dk_pull.Looper.{Looper, LooperFunction, idle, create, make_next, start}

-- What one run of the function does, over the user's own data: it ends, it throws, it changes the
-- data, it goes on as the data say, and it calls `next`, inside a `try` with `catch (...)` or not.
pub data Script {ℓ} (X : Type ℓ) : Type ℓ where
  end : Script X
  fail : Exception → Script X
  change : (X → X) → Script X → Script X
  depending : (X → Script X) → Script X
  call_next : Script X → Script X
  try_next : Script X → Script X

-- The looper, the user's data, the calls of the function that have not returned, the most that
-- there have been at a time, all calls of the function, and all calls of `next`.
pub record Machine {ℓ} (X : Type ℓ) : Type ℓ where
  pub looper : Looper
  pub user : X
  pub now : ℕ
  pub most : ℕ
  pub rounds : ℕ
  pub asks : ℕ

abbrev pub new_machine {ℓ} : {X : Type ℓ} → X → Machine X
new_machine x = record { looper = idle; user = x; now = 0; most = 0; rounds = 0; asks = 0 }

abbrev pub the_looper {ℓ} : {X : Type ℓ} → Ref (Machine X) Looper
the_looper = record {
  get = λ w. w.looper;
  set = λ l w. record w { looper = l };
  get-set = λ l w. refl;
  set-set = λ k l w. refl;
  set-get = λ w. refl;
}

abbrev pub Call {ℓ} : Type ℓ → Type ℓ
Call X = Action (Machine X) (Unit {0})

module _ {ℓ} {X : Type ℓ} where
  -- `try { … } catch (...) {}`
  abbrev pub handled : Result (Unit {0}) × Machine X → Result (Unit {0}) × Machine X
  handled (ok a, w) = (ok a, w)
  handled (throw e, w) = (ok tt, w)
  handled (fatal, w) = (fatal, w)
  handled (out_of_fuel, w) = (out_of_fuel, w)

  abbrev pub attempt : Call X → Call X
  attempt m w = handled (m w)

  -- A call of `next`, counted.
  abbrev pub counted_ask : Call X → Call X
  counted_ask next w = next (record w { asks = w.asks + 1 })

  unfoldable pub perform : Script X → Call X → Call X
  perform end next w = (ok tt, w)
  perform (fail e) next w = (throw e, w)
  perform (change f rest) next w = perform rest next (record w { user = f w.user })
  perform (depending f) next w = perform (f w.user) next w
  perform (call_next rest) next w = (counted_ask next >> perform rest next) w
  perform (try_next rest) next w = (attempt (counted_ask next) >> perform rest next) w

  abbrev pub enter_call : Machine X → Machine X
  enter_call w = record w {
    now = w.now + 1;
    most = if ltb w.most (w.now + 1) then w.now + 1 else w.most;
    rounds = w.rounds + 1;
  }

  -- However it ends, the call is no longer on the stack.
  abbrev pub leave_call : Result (Unit {0}) × Machine X → Result (Unit {0}) × Machine X
  leave_call (r, w) = (r, record w { now = w.now - 1 })

  -- The function that the looper runs, counted.
  unfoldable pub function : Script X → LooperFunction (Machine X)
  function script next w = leave_call (perform script next (enter_call w))

  -- Calls of `next` from outside, one after the other, whose exceptions the caller catches.
  unfoldable pub ask_later : Script X → ℕ → ℕ → Call X
  ask_later script fuel zero = skip
  ask_later script fuel (suc k) = do
    attempt (counted_ask (make_next the_looper (function script) fuel))
    ask_later script fuel k

  -- The same calls by a caller that catches nothing: the first exception ends it.
  unfoldable pub ask_often : Script X → ℕ → ℕ → Call X
  ask_often script fuel zero = skip
  ask_often script fuel (suc k) = do
    counted_ask (make_next the_looper (function script) fuel)
    ask_often script fuel k

  unfoldable pub open_session : Script X → ℕ → ℕ → Call X
  open_session script fuel k = do
    create the_looper
    start the_looper (function script) fuel
    ask_often script fuel k

  -- `Create`, `Start`, and `k` calls of `next` from outside, whose exceptions the caller catches.
  unfoldable pub session : Script X → ℕ → ℕ → Call X
  session script fuel k = do
    create the_looper
    attempt (start the_looper (function script) fuel)
    ask_later script fuel k
