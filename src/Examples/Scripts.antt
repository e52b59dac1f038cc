-- ===== src/Examples/Scripts.antt =====
-- A function of a looper that calls `next` three times in each round, in the middle of its work.
use dk_pull.Base.{ℕ, zero, suc, ◌+◌, ◌-◌, ◌≤◌, ◌≡◌, refl, arith}
use dk_pull.Base.Action.{ok, bad_function_call}
use dk_pull.Looper.{idle, enter, loop, make_next, start}
use dk_pull.Looper.Scripts.{
  Script, end, fail, change, depending, call_next, try_next, Machine, new_machine, perform,
  function, ask_later, session, open_session,
}
use dk_pull.Looper.Requests.{session-bounds}
use dk_pull.Looper.Served.{Obeys, ends, changes, depends, calls, tries, Descends, session-Rests}

abbrev eager_round : ℕ → Script ℕ
eager_round zero = end
eager_round (suc n) = change (λ x. x - 1) (call_next (try_next (call_next end)))

abbrev eager_script : Script ℕ
eager_script = depending eager_round

abbrev itself : ℕ → ℕ
itself x = x

eager_round-Obeys : (n x : ℕ) → x ≤ n → Obeys itself n x (eager_round x)
eager_round-Obeys n zero le = ends
eager_round-Obeys n (suc x) le =
    changes x (λ y h. omega arith) (λ y. omega arith)
      (calls (omega arith) (tries (omega arith) (calls (omega arith) ends)))

eager_script-Descends : Descends itself eager_script
eager_script-Descends n = depends (λ x le. eager_round-Obeys n x le)

session-Rests_example :
    (w : Machine ℕ) × (open_session eager_script 7 2 (new_machine 4) ≡ (ok tt, w))
    × ((w.user ≤ 4) × (w.looper ≡ idle))
session-Rests_example = session-Rests itself eager_script eager_script-Descends 7 2 4 (omega arith)

-- It throws when it is asked for the third time, after a `next` that it catches.
abbrev failing_round : ℕ → Script ℕ
failing_round zero = fail bad_function_call
failing_round (suc n) = change (λ x. x - 1) (call_next (try_next end))

session-bounds_example :
    ((session (depending failing_round) 9 3 (new_machine 2)).1.most ≤ 2)
    × ((session (depending failing_round) 9 3 (new_machine 2)).1.rounds
        ≤ (session (depending failing_round) 9 3 (new_machine 2)).1.asks + 1)
session-bounds_example = session-bounds (depending failing_round) 9 3 2

-- Two calls at a time do occur.
two_deep : (session eager_script 7 0 (new_machine 4)).1.most ≡ 2
unfolding session start function perform make_next enter loop ask_later
two_deep = refl

-- Twelve calls of `next` make six more rounds than the first.
rounds_merged :
    ((session eager_script 7 0 (new_machine 4)).1.rounds ≡ 7)
    × ((session eager_script 7 0 (new_machine 4)).1.asks ≡ 12)
unfolding session start function perform make_next enter loop ask_later
rounds_merged = (refl, refl)
