-- ===== src/Looper/Requests.antt =====
-- How often a function of `Looper` (dk_pull/looper/looper.cc) is called, against how often it is
-- asked for.
use dk_pull.Base.{ℕ, zero, suc, ◌+◌, ◌≤◌, true, false, arith, inl, inr, Bool-cases, if◌then◌else◌}
use dk_pull.Base.Action.{ok}
use dk_pull.Looper.{enter, loop, make_next, start}
use dk_pull.Looper.Scripts.{
  Script, Machine, new_machine, the_looper, Call, attempt, counted_ask, enter_call, function,
  ask_later, session,
}
use dk_pull.Looper.Keeps.{Keeps, then-Keeps, handled-Keeps, perform-Keeps}
use dk_pull.Looper.Depth.{session-Within}

module _ {ℓ} {X : Type ℓ} where
  abbrev pending : Machine X → ℕ
  pending w = if w.looper.next_called then 1 else 0

  -- Each round, and the one that the looper has been asked for, has its own call of `next`, but
  -- for `first` ones.
  abbrev Asked : ℕ → Machine X → Type 0
  Asked first w = w.rounds + pending w ≤ w.asks + first

  module _ (script : Script X) (first : ℕ) where
    function-Asked :
        (next : Call X)
        → Keeps (Asked first) (counted_ask next)
        → (w : Machine X) → Asked first (enter_call w)
        → Asked first (function script next w).1
    unfolding function
    function-Asked next k w h =
        perform-Keeps (Asked first) (λ x v a. a) script next k (enter_call w) h

    enter-Asked :
        (l : Call X)
        → Keeps (Asked first) l
        → Keeps (Asked first) (counted_ask (enter the_looper l))
    unfolding enter
    enter-Asked l k w h =
        let room : w.rounds + 1 ≤ w.asks + 1 + first = omega arith in
        elim (Bool-cases w.looper.looper_function_returned) [
          | inr q ↦ rw q room
          | inl q ↦
              let w1 = record w {
                asks = w.asks + 1;
                looper = record { next_called = true; looper_function_returned = false };
              } in
              rw q (
                then-Keeps (Asked first) (l w1)
                  (λ t. (
                    ok tt,
                    record t { looper = record t.looper { looper_function_returned = true } },
                  ))
                  (k w1 room) (λ t a. a))
        ]

    loop-Asked : (fuel : ℕ) → Keeps (Asked first) (loop the_looper (function script) fuel)
    unfolding loop
    loop-Asked zero w h = h
    loop-Asked (suc f) w h = elim (Bool-cases w.looper.next_called) [
      | inr e ↦ rw e h
      | inl e ↦
          let w1 = record w { looper = record w.looper { next_called = false } } in
          let room : w.rounds + 1 + 0 ≤ w.asks + first = ground arith in
          rw e (
            then-Keeps (Asked first)
              (function script (enter the_looper (loop the_looper (function script) f)) w1)
              (loop the_looper (function script) f)
              (function-Asked (enter the_looper (loop the_looper (function script) f))
                (enter-Asked (loop the_looper (function script) f) (loop-Asked f)) w1 room)
              (loop-Asked f))
    ]

    next-Asked :
        (fuel : ℕ) → Keeps (Asked first) (counted_ask (make_next the_looper (function script) fuel))
    unfolding make_next
    next-Asked fuel = enter-Asked (loop the_looper (function script) fuel) (loop-Asked fuel)

    ask_later-Asked : (fuel k : ℕ) → Keeps (Asked first) (ask_later script fuel k)
    unfolding ask_later
    ask_later-Asked fuel zero w h = h
    ask_later-Asked fuel (suc k) w h =
        let next = counted_ask (make_next the_looper (function script) fuel) in
        then-Keeps (Asked first) (attempt next w) (ask_later script fuel k)
          (handled-Keeps (Asked first) (next w) (next-Asked fuel w h)) (ask_later-Asked fuel k)

  session-Asked :
      (script : Script X) (fuel k : ℕ) (x : X) → Asked 1 (session script fuel k (new_machine x)).1
  unfolding session start
  session-Asked script fuel k x =
      let w = new_machine x in
      let next = make_next the_looper (function script) fuel in
      then-Keeps (Asked 1) (attempt (function script next) w) (ask_later script fuel k)
        (handled-Keeps (Asked 1) (function script next w)
          (function-Asked script 1 next (next-Asked script 1 fuel) w (omega arith)))
        (ask_later-Asked script 1 fuel k)

  -- A looper with any function at all, created, started, and asked any number of times later: the
  -- function's calls are never nested deeper than two, and it is called at most once for `Start`
  -- and once for each call of `next`. The function may call `next` anywhere and any number of
  -- times, throw, and catch what `next` throws.
  pub session-bounds :
      (script : Script X) (fuel k : ℕ) (x : X)
      → ((session script fuel k (new_machine x)).1.most ≤ 2)
        × ((session script fuel k (new_machine x)).1.rounds
            ≤ (session script fuel k (new_machine x)).1.asks + 1)
  session-bounds script fuel k x =
      ((session-Within script fuel k x).1, omega (arith, session-Asked script fuel k x))
