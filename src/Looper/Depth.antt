-- ===== src/Looper/Depth.antt =====
-- How deeply and how often a function of `Looper` (dk_pull/looper/looper.cc) is called.
use dk_pull.Base.{ℕ, zero, suc, ◌+◌, ◌≤◌, ◌≡◌, refl, true, false, arith, inl, inr, Bool-cases}
use dk_pull.Base.Action.{ok}
use dk_pull.Looper.{enter, loop, make_next, start}
use dk_pull.Looper.Rule.{enter-busy}
use dk_pull.Looper.Scripts.{
  Script, Machine, new_machine, the_looper, Call, attempt, counted_ask, enter_call, function,
  ask_later, session,
}
use dk_pull.Looper.Keeps.{Keeps, then-Keeps, handled-Keeps, perform-Keeps}

module _ {ℓ} {X : Type ℓ} where
  -- `d` calls are on the stack, and there have never been more than `b`.
  abbrev pub Within : ℕ → ℕ → Machine X → Type 0
  Within d b w = (w.now ≡ d) × (w.most ≤ b)

  -- So it is in a round of the loop, in which `next` only leaves its mark.
  abbrev Inside : ℕ → ℕ → Machine X → Type 0
  Inside d b w = Within d b w × (w.looper.looper_function_returned ≡ false)

  module _ (script : Script X) where
    enter-Inside : (d b : ℕ) (l : Call X) → Keeps (Inside d b) (counted_ask (enter the_looper l))
    enter-Inside d b l w (h, q) =
        rw (enter-busy the_looper l (record w { asks = w.asks + 1 }) q) (h, q)

    function-Inside :
        (d b : ℕ) (next : Call X)
        → suc d ≤ b
        → Keeps (Inside (suc d) b) (counted_ask next)
        → Keeps (Inside d b) (function script next)
    unfolding function
    function-Inside d b next lt k w ((n, m), q) =
        let ((n', m'), q') =
          perform-Keeps (Inside (suc d) b) (λ x v h. h) script next k (enter_call w)
            ((omega (arith, n), ground arith), q) in
        ((omega (arith, n'), m'), q')

    loop-Inside :
        (d b fuel : ℕ) → suc d ≤ b → Keeps (Inside d b) (loop the_looper (function script) fuel)
    unfolding loop
    loop-Inside d b zero lt w h = h
    loop-Inside d b (suc f) lt w ((n, m), q) = elim (Bool-cases w.looper.next_called) [
      | inr e ↦ rw e ((n, m), q)
      | inl e ↦
          let w1 = record w { looper = record w.looper { next_called = false } } in
          rw e (
            then-Keeps (Inside d b)
              (function script (enter the_looper (loop the_looper (function script) f)) w1)
              (loop the_looper (function script) f)
              (function-Inside d b (enter the_looper (loop the_looper (function script) f)) lt
                (enter-Inside (suc d) b (loop the_looper (function script) f)) w1 ((n, m), q))
              (loop-Inside d b f lt))
    ]

    -- `next` from anywhere: one more call on the stack is enough.
    enter-Within :
        (d b fuel : ℕ)
        → suc d ≤ b
        → Keeps (Within d b) (enter the_looper (loop the_looper (function script) fuel))
    unfolding enter
    enter-Within d b fuel lt w h = elim (Bool-cases w.looper.looper_function_returned) [
      | inr q ↦ rw q h
      | inl q ↦
          let w1 = record w {
            looper = record { next_called = true; looper_function_returned = false };
          } in
          rw q (
            then-Keeps (Within d b) (loop the_looper (function script) fuel w1)
              (λ t.
                (ok tt, record t { looper = record t.looper { looper_function_returned = true } }))
              (loop-Inside d b fuel lt w1 (h, refl)).0 (λ t k. k))
    ]

    next-Within :
        (d b fuel : ℕ)
        → suc d ≤ b
        → Keeps (Within d b) (counted_ask (make_next the_looper (function script) fuel))
    unfolding make_next
    next-Within d b fuel lt w h = enter-Within d b fuel lt (record w { asks = w.asks + 1 }) h

    -- `Start` may have one more on the stack, its own call.
    start-Within :
        (d b fuel : ℕ)
        → suc (suc d) ≤ b
        → Keeps (Within d b) (start the_looper (function script) fuel)
    unfolding start function
    start-Within d b fuel lt w (n, m) =
        let (n', m') =
          perform-Keeps (Within (suc d) b) (λ x v h. h) script
            (make_next the_looper (function script) fuel) (next-Within (suc d) b fuel lt)
            (enter_call w) (omega (arith, n), ground arith) in
        (omega (arith, n'), m')

    ask_later-Within : (d b fuel k : ℕ) → suc d ≤ b → Keeps (Within d b) (ask_later script fuel k)
    unfolding ask_later
    ask_later-Within d b fuel zero lt w h = h
    ask_later-Within d b fuel (suc k) lt w h =
        let next = counted_ask (make_next the_looper (function script) fuel) in
        then-Keeps (Within d b) (attempt next w) (ask_later script fuel k)
          (handled-Keeps (Within d b) (next w) (next-Within d b fuel lt w h))
          (ask_later-Within d b fuel k lt)

    pub session-Within : (fuel k : ℕ) (x : X) → Within 0 2 (session script fuel k (new_machine x)).1
    unfolding session
    session-Within fuel k x =
        then-Keeps (Within 0 2) (attempt (start the_looper (function script) fuel) (new_machine x))
          (ask_later script fuel k)
          (handled-Keeps (Within 0 2) (start the_looper (function script) fuel (new_machine x))
            (start-Within 0 2 fuel (omega arith) (new_machine x) (refl, omega arith)))
          (ask_later-Within 0 2 fuel k (omega arith))
