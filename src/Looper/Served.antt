-- ===== src/Looper/Served.antt =====
-- `Looper` (dk_pull/looper/looper.cc) with a function that calls `next` several times in a round, in
-- the middle of its work: how far it goes.
use dk_pull.Base.{
  ℕ, zero, suc, ◌≤◌, ◌<◌, ◌+◌, ◌-◌, ◌≡◌, refl, true, false, arith, inl, inr, Bool-cases,
}
use dk_pull.Base.Action.{Result, ok, and_then}
use dk_pull.Looper.{Looper, idle, enter, loop, make_next, start}
use dk_pull.Looper.Rule.{enter-busy, enter-idle, loop-quiet, busy, asked}
use dk_pull.Looper.Scripts.{
  Script, end, change, depending, call_next, try_next, Machine, new_machine, the_looper, Call,
  handled, attempt, counted_ask, perform, enter_call, function, ask_often, open_session,
}

module _ {ℓ} {X : Type ℓ} where
  -- The call returns normally, in a world with `P`.
  abbrev Returns {κ} : (Machine X → Type κ) → Result (Unit {0}) × Machine X → Type (ℓ ⊔ κ)
  Returns P p = (w : Machine X) × (p ≡ (ok tt, w)) × P w

  then-Returns {κ μ} :
      {P : Machine X → Type κ} {Q : Machine X → Type μ} (p : Result (Unit {0}) × Machine X)
      (m : Call X)
      → Returns P p
      → ((w : Machine X) → P w → Returns Q (m w))
      → Returns Q (and_then p (λ _. m))
  then-Returns p m (w, e, h) k = let (w', e', h') = k w h in (w', rw e e', h')

  handled-Returns {κ} :
      {P : Machine X → Type κ} (p : Result (Unit {0}) × Machine X)
      → Returns P p
      → Returns P (handled p)
  handled-Returns p (w, e, h) = (w, rw e refl, h)

  module _ (measure : X → ℕ) where
    -- A script from data whose measure is at most the first number: it does not throw, no change
    -- raises the measure, and where it calls `next` the measure is below the second number.
    pub data Obeys (n : ℕ) : ℕ → Script X → Type ℓ where
      ends : {k : ℕ} → Obeys n k end
      changes :
          {k : ℕ} {f : X → X} {rest : Script X} (k' : ℕ)
          → ((x : X) → measure x ≤ k → measure (f x) ≤ k')
          → ((x : X) → measure (f x) ≤ measure x)
          → Obeys n k' rest
          → Obeys n k (change f rest)
      depends :
          {k : ℕ} {f : X → Script X}
          → ((x : X) → measure x ≤ k → Obeys n (measure x) (f x))
          → Obeys n k (depending f)
      calls : {k : ℕ} {rest : Script X} → k < n → Obeys n k rest → Obeys n k (call_next rest)
      tries : {k : ℕ} {rest : Script X} → k < n → Obeys n k rest → Obeys n k (try_next rest)

    -- Where a round begins with a measure of `n`, it asks for the next one with a lower measure.
    abbrev pub Descends : Script X → Type ℓ
    Descends script = (n : ℕ) → Obeys n n script

    module _ {κ} (B : Machine X → Type κ) (n : ℕ) (next : Call X)
        (lower : (x : X) (w : Machine X)
          → measure x ≤ measure w.user
          → B w
          → B (record w { user = x }))
        (ask : (w : Machine X)
          → measure w.user < n
          → B w
          → Returns (λ w'. (measure w'.user ≤ measure w.user) × B w') (counted_ask next w)) where
      perform-Returns :
          {k : ℕ} {script : Script X}
          → Obeys n k script
          → (w : Machine X) → measure w.user ≤ k
          → B w
          → Returns B (perform script next w)
      unfolding perform
      perform-Returns ends w le b = (w, refl, b)
      perform-Returns (changes {f} k' below falls o) w le b =
          perform-Returns o (record w { user = f w.user }) (below w.user le)
            (lower (f w.user) w (falls w.user) b)
      perform-Returns (depends o) w le b = perform-Returns (o w.user le) w (omega arith) b
      perform-Returns (calls {rest} lt o) w le b =
          then-Returns (counted_ask next w) (perform rest next) (ask w (omega arith) b)
            (λ v h. perform-Returns o v (omega (arith, h.0)) h.1)
      perform-Returns (tries {rest} lt o) w le b =
          then-Returns (attempt (counted_ask next) w) (perform rest next)
            (handled-Returns (counted_ask next w) (ask w (omega arith) b))
            (λ v h. perform-Returns o v (omega (arith, h.0)) h.1)

    -- In a round of the loop, in data of measure at most `b`: if `next` has been called, the
    -- measure is below `n`.
    abbrev Marked : ℕ → ℕ → Machine X → Type 0
    Marked b n w =
        (w.looper.looper_function_returned ≡ false)
        × (measure w.user ≤ b)
        × (w.looper.next_called ≡ true → measure w.user < n)

    abbrev Rests : Looper → ℕ → Machine X → Type 0
    Rests l b w = (measure w.user ≤ b) × (w.looper ≡ l)

    module _ (script : Script X) (o : Descends script) where
      enter-Marked :
          (b n : ℕ) (l : Call X) (w : Machine X)
          → measure w.user < n
          → Marked b n w
          → Returns
              (λ w'. (measure w'.user ≤ measure w.user) × Marked b n w')
              (counted_ask (enter the_looper l) w)
      enter-Marked b n l w lt (q, le, h) =
          let w1 = record w { asks = w.asks + 1 } in
          (
            record w1 { looper = record w.looper { next_called = true } },
            enter-busy the_looper l w1 q,
            (omega arith, (q, le, λ _. lt)),
          )

      round :
          (b n : ℕ) (l : Call X) (w : Machine X)
          → measure w.user ≤ n
          → Marked b n w
          → Returns (Marked b n) (function script (enter the_looper l) w)
      unfolding function
      round b n l w le h =
          let (w', e, h') =
            perform-Returns (Marked b n) n (enter the_looper l)
              (λ x v d (q, le', k). (q, omega arith, λ c. omega (arith, k c))) (enter-Marked b n l)
              (o n) (enter_call w) le h in
          (record w' { now = w'.now - 1 }, rw e refl, h')

      loop-Returns :
          (b n fuel : ℕ) (w : Machine X)
          → n < fuel
          → Marked b n w
          → Returns (Rests busy b) (loop the_looper (function script) fuel w)
      unfolding loop
      loop-Returns b n zero w lt h = absurd (omega arith)
      loop-Returns b zero (suc f) w lt (q, le, h) = elim (Bool-cases w.looper.next_called) [
        | inr e ↦
            let quiet : w.looper ≡ busy = cc in
            (w, loop-quiet the_looper (function script) f w quiet, (le, quiet))
        | inl e ↦ absurd (omega (arith, h e))
      ]
      loop-Returns b (suc n) (suc f) w lt (q, le, h) = elim (Bool-cases w.looper.next_called) [
        | inr e ↦
            let quiet : w.looper ≡ busy = cc in
            (w, loop-quiet the_looper (function script) f w quiet, (le, quiet))
        | inl e ↦
            let w1 = record w { looper = record w.looper { next_called = false } } in
            let l = loop the_looper (function script) f in
            let m : measure w.user < suc n = h e in
            rw e (
              then-Returns (function script (enter the_looper l) w1) l
                (round b n l w1 (omega arith) (q, le, λ c. absurd (cc)))
                (λ v k. loop-Returns b n f v (omega arith) k))
      ]

      -- A call of `next` on an idle looper serves all rounds that follow from it.
      next-Returns :
          (b fuel : ℕ) (w : Machine X)
          → suc (measure w.user) < fuel
          → Rests idle b w
          → Returns
              (λ w'. (measure w'.user ≤ measure w.user) × Rests idle b w')
              (counted_ask (make_next the_looper (function script) fuel) w)
      unfolding make_next
      next-Returns b fuel w lt (le, q) =
          let w1 = record w { asks = w.asks + 1 } in
          let (w', e, (le', q')) =
            loop-Returns (measure w.user) (suc (measure w.user)) fuel (record w1 { looper = asked })
              lt (refl, omega arith, λ _. omega arith) in
          (
            record w' { looper = idle },
            enter-idle the_looper (loop the_looper (function script) fuel) w1 w' q e q',
            (le', (omega arith, refl)),
          )

      ask_often-Returns :
          (b fuel k : ℕ) (w : Machine X)
          → suc b < fuel
          → Rests idle b w
          → Returns (Rests idle b) (ask_often script fuel k w)
      unfolding ask_often
      ask_often-Returns b fuel zero w lt h = (w, refl, h)
      ask_often-Returns b fuel (suc k) w lt h =
          let next = counted_ask (make_next the_looper (function script) fuel) in
          then-Returns (next w) (ask_often script fuel k)
            (next-Returns b fuel w (omega (arith, h.0)) h)
            (λ v g. ask_often-Returns b fuel k v lt g.1)

      start-Returns :
          (b fuel : ℕ) (w : Machine X)
          → suc b < fuel
          → Rests idle b w
          → Returns (Rests idle b) (start the_looper (function script) fuel w)
      unfolding start function
      start-Returns b fuel w lt (le, q) =
          let (w', e, h') =
            perform-Returns (Rests idle b) b (make_next the_looper (function script) fuel)
              (λ x v d (le', k). (omega arith, k)) (λ v m h. next-Returns b fuel v (omega arith) h)
              (o b) (enter_call w) le (le, q) in
          (record w' { now = w'.now - 1 }, rw e refl, h')

      -- If the function never throws, never raises the measure of the user's data, and lowers it in
      -- each round before it calls `next`, however often and wherever it calls it, inside a `try`
      -- or not: created, started, and asked any number of times later by a caller that catches
      -- nothing, the looper returns from each of these calls, no exception comes out of one, and
      -- it is idle at the end, with no call of `next` pending. More fuel than the measure and one
      -- is enough.
      pub session-Rests :
          (fuel k : ℕ) (x : X)
          → suc (measure x) < fuel
          → (w : Machine X) × (open_session script fuel k (new_machine x) ≡ (ok tt, w))
            × ((measure w.user ≤ measure x) × (w.looper ≡ idle))
      unfolding open_session
      session-Rests fuel k x lt =
          let w = new_machine x in
          then-Returns (start the_looper (function script) fuel w) (ask_often script fuel k)
            (start-Returns (measure x) fuel w lt (omega arith, refl))
            (λ v h. ask_often-Returns (measure x) fuel k v lt h)
