-- ===== src/Event/EventLoop/Timers/Rounds.antt =====
-- A client of `UvEventLoop` (dk_pull/event/event_loop): it sets timeouts, runs the loop, and lets
-- it go.
use dk_pull.Base.{
  ℕ, suc, length, ◌+◌, ◌*◌, ◌<◌, ◌≡◌, refl, sym, ◌∙◌, ap, Bool, true, false, not, List, [],
  Bool-cases, inl, inr, ◌∷◌, ◌++◌, append_assoc, append-nil, arith,
}
use dk_pull.Base.Action.{Action, ok, skip, ◌>>=◌, ◌>>◌}
use dk_pull.Event.Uv.{Uv, IsUv}
use dk_pull.Event.Timer.{fresh, create, stop, TimerState}
use dk_pull.Event.Timer.Runs.{stops, create-ok}
use dk_pull.Event.Timer.Lifetime.{stop-ok}
use dk_pull.Event.Timer.Life.{create-IsLive, or_true}
use dk_pull.Event.Timer.Ends.{begins, goes_on}
use dk_pull.Event.EventLoop.{Timer, EventLoop, construct, destroy, set_timeout, run}
use dk_pull.Event.EventLoop.Ends.{run-ends_keeping}
use dk_pull.Event.EventLoop.Timers.{Slot, Callback, on_timer, create_timer, uv_event_loop, any_open}
use dk_pull.Event.EventLoop.Timers.Laws.{IsUvLoop}
use dk_pull.Event.EventLoop.Timers.Lives.{
  AllReady, AllOnce, Lives, Lives-once, unmoved, Lives-then, total, total-most, Lives-ready,
}
use dk_pull.Event.EventLoop.Timers.Timeouts.{
  Timeout, Made, options_of, AllTame, AllMade, none_made, more_made, AllServed, AllMade-length,
  AllMade-ready, Lives-served,
}

module _ (uv : Uv) (laws : IsUv uv) (memory : uv.Handle) (loop_init : Action (List (Slot uv)) ℕ)
    (loop_alive : List (Slot uv) → Bool) (run_once : Action (List (Slot uv)) (Unit {0}))
    (loop_close : Action (List (Slot uv)) ℕ) where
  abbrev the_loop : EventLoop (List (Slot uv)) (Callback uv)
  the_loop = uv_event_loop uv memory loop_init loop_alive run_once loop_close

  abbrev stop_if : Bool → Timer (List (Slot uv)) → Action (List (Slot uv)) (Unit {0})
  stop_if true timer = do rc ← timer.stop; skip
  stop_if false timer = skip

  -- The client sets the timeouts of its plan, and stops some of them at once.
  abbrev pub set_all : List (Timeout uv laws memory) → Action (List (Slot uv)) (Unit {0})
  set_all [] = skip
  set_all (p ∷ plan) = do
    timer ← set_timeout the_loop p.ms true p.callback
    stop_if p.stops_it timer
    set_all plan

  -- Its whole program.
  abbrev pub main : List (Timeout uv laws memory) → ℕ → Action (List (Slot uv)) (Unit {0})
  main plan fuel = do
    construct loop_init loop_alive run_once loop_close
    set_all plan
    run loop_init loop_alive run_once loop_close fuel
    destroy loop_init loop_alive run_once loop_close

  on_timer-last :
      {A : Type 0} (slots : List (Slot uv)) (call : Action (TimerState uv) A)
      (callback : Callback uv) (t u : TimerState uv) (a : A)
      → call t ≡ (ok a, u)
      → on_timer uv (length slots) call (slots ++ record { callback = callback; timer = t } ∷ [])
        ≡ (ok a, slots ++ record { callback = callback; timer = u } ∷ [])
  on_timer-last [] call callback t u a e = rw e refl
  on_timer-last (s ∷ slots) call callback t u a e =
      rw (on_timer-last slots call callback t u a e) refl

  timer_at : ℕ → Timer (List (Slot uv))
  timer_at i = record { stop = on_timer uv i (stop uv) }

  stop_if-ok :
      (p : Timeout uv laws memory) (slots : List (Slot uv)) (t : TimerState uv)
      → create uv (fresh uv (options_of uv laws memory p) memory) ≡ (ok tt, t)
      → (u : TimerState uv) × Made uv laws memory p u
        × (stop_if p.stops_it
              (timer_at (length slots))
              (slots ++ record { callback = p.callback; timer = t } ∷ [])
            ≡ (ok tt, slots ++ record { callback = p.callback; timer = u } ∷ []))
  unfolding timer_at
  stop_if-ok p slots t made = elim (Bool-cases p.stops_it) [
    | inl now ↦
        let (l, type, s, k, c) =
          create-IsLive uv laws (options_of uv laws memory p) memory t refl made in
        let (u, run, v, marks, idle, closes) = stop-ok uv laws t l.valid s in
        (
          u,
          record {
            timer = t;
            created = made;
            fired = 0;
            steps = 1;
            life = goes_on begins (stops run);
            unfired = rw closes (or_true uv laws (not p.stops_it) true refl);
          },
          rw (now, on_timer-last slots (stop uv) p.callback t u true run) refl,
        )
    | inr later ↦ (
      t,
      record {
        timer = t;
        created = made;
        fired = 0;
        steps = 0;
        life = begins;
        unfired = rw later refl;
      },
      rw later refl,
    )
  ]

  set_all-ok :
      (plan : List (Timeout uv laws memory)) (slots : List (Slot uv))
      → (new : List (Slot uv)) × AllMade uv laws memory plan new
        × (set_all plan slots ≡ (ok tt, slots ++ new))
  unfolding set_timeout create_timer timer_at
  set_all-ok [] slots = ([], none_made, rw (append-nil slots) refl)
  set_all-ok (p ∷ plan) slots =
      let (t, created, v, stopped, held, act, timeout, repeat) =
        create-ok uv laws (options_of uv laws memory p) memory refl in
      let (u, made, stopping) = stop_if-ok p slots t created in
      let s : Slot uv = record { callback = p.callback; timer = u } in
      let (new, all, run) = set_all-ok plan (slots ++ s ∷ []) in
      (
        s ∷ new,
        more_made made all,
        rw (created, stopping) (run ∙ ap (λ x. (ok tt, x)) (append_assoc slots (s ∷ []) new)),
      )

  -- A turn of the loop, after some that took the timers from `slots` to where they are.
  abbrev Going : List (Slot uv) → List (Slot uv) → Type 0
  Going slots m = (AllReady uv laws m × AllOnce uv laws m) × (n : ℕ) × Lives uv laws slots n m

  one-turn :
      (slots m : List (Slot uv))
      → IsUvLoop uv laws loop_init loop_alive run_once loop_close
      → Going slots m
      → loop_alive m ≡ true
      → (m' : List (Slot uv)) × (run_once m ≡ (ok tt, m'))
        × Going slots m'
        × (total uv laws m' < total uv laws m)
  one-turn slots m loop ((ready, once), n, lives) alive =
      let (m', k, ran, more) = loop.turn m ready alive in
      let (once', fewer) = Lives-once uv laws ready once more in
      (
        m',
        ran,
        ((Lives-ready uv laws ready more, once'), n + suc k, Lives-then uv laws lives more),
        omega (arith, fewer),
      )

  run-served :
      (plan : List (Timeout uv laws memory)) (slots : List (Slot uv)) (fuel : ℕ)
      → IsUvLoop uv laws loop_init loop_alive run_once loop_close
      → AllTame uv laws memory plan
      → AllMade uv laws memory plan slots
      → 3 * length plan < fuel
      → (slots' : List (Slot uv)) × (run loop_init loop_alive run_once loop_close fuel slots
          ≡ (ok tt, slots'))
        × AllServed uv laws memory plan slots'
        × (any_open uv slots' ≡ false)
  run-served plan slots fuel loop tame made enough =
      let ready = AllMade-ready uv laws memory tame made in
      let same = AllMade-length uv laws memory made in
      let fits : total uv laws slots < fuel =
        omega (arith, enough, same, total-most uv laws slots) in
      let (slots', ran, (later, n, lives), dead) =
        run-ends_keeping loop_init loop_alive run_once loop_close (Going slots) (total uv laws) fuel
          slots (λ m going alive. one-turn slots m loop going alive)
          (ready, 0, unmoved uv laws slots) fits in
      let (served, closed) =
        Lives-served uv laws memory tame made lives (sym (loop.alive slots') ∙ dead) in
      (slots', ran, served, closed)

  -- With libuv as documented: a client makes an event loop, sets any number of timeouts, stops some
  -- of them at once, runs the loop, and destroys it. The callbacks return and do no more to their
  -- timers than a stop may. Then all of it returns and no check fails; every timer is closed and
  -- has let itself go; the callback of a timeout that was stopped at once is never called, and that
  -- of any other was called exactly once, or its timer was stopped. More fuel than three turns for
  -- each timeout is enough for `Run`.
  pub main-served :
      (plan : List (Timeout uv laws memory)) (fuel : ℕ)
      → IsUvLoop uv laws loop_init loop_alive run_once loop_close
      → AllTame uv laws memory plan
      → 3 * length plan < fuel
      → (slots : List (Slot uv)) × (main plan fuel [] ≡ (ok tt, slots))
        × AllServed uv laws memory plan slots
  unfolding construct destroy
  main-served plan fuel loop tame enough =
      let (new, made, set) = set_all-ok plan [] in
      let (slots, ran, served, closed) = run-served plan new fuel loop tame made enough in
      (slots, rw (loop.init, set, ran, loop.close slots closed) refl, served)
