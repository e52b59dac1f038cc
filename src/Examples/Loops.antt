-- ===== src/Examples/Loops.antt =====
-- An event loop over a libuv of its own, which serves the first timer that it owes something.
use dk_pull.Base.{
  ℕ, suc, ◌+◌, ◌≡◌, refl, ◌∙◌, ap, Bool, true, false, List, [], ◌∷◌, ◌++◌, if◌then◌else◌, inl, inr,
  Bool-cases, arith,
}
use dk_pull.Base.Action.{Action, Result, ok, pure, skip}
use dk_pull.Event.Timer.{
  Options, TimerState, stop, close_timer, one_time, repeated, uv_close_callback, uv_timer_callback,
}
use dk_pull.Event.Timer.Lifetime.{stop-ok, uv_close_callback-ok}
use dk_pull.Event.Timer.Runs.{expires, closes}
use dk_pull.Event.Timer.Life.{create-IsLive, stop-IsTame, skip-IsTame}
use dk_pull.Event.Timer.Ends.{begins, goes_on}
use dk_pull.Event.Timer.Moves.{expired}
use dk_pull.Event.Timer.Closes.{Returns, expire-Returns}
use dk_pull.Event.EventLoop.{Timer, EventLoop, set_interval, set_timeout, run}
use dk_pull.Event.EventLoop.Timers.{Slot, Callback, owed, any_owed}
use dk_pull.Event.EventLoop.Timers.Laws.{IsUvLoop}
use dk_pull.Event.EventLoop.Timers.Lives.{
  IsReady, AllReady, no_more, one_more, Lives, more_lives, unmoved,
}
use dk_pull.Event.EventLoop.Timers.Timeouts.{Timeout, AllTame, no_plan, more_plan, AllServed}
use dk_pull.Event.EventLoop.Timers.Rounds.{main, main-served}
use dk_pull.Event.EventLoop.Timers.Settled.{all_settled, run-settled}
use dk_pull.Examples.Timers.{blank, uv, laws, stop_self, every_minute, ticking, gone, made}

-- A loop that writes down the timers it is asked for, which cannot be stopped.
abbrev stuck : Timer (List Options)
stuck = record { stop = pure false }

abbrev recorder : EventLoop (List Options) (Unit {0})
recorder = record {
  run = λ fuel. skip;
  create_timer = λ options callback asked. (ok stuck, asked ++ options ∷ []);
}

interval :
    set_interval recorder 60000 true tt []
    ≡ (ok stuck, record { has_callback = true; delay = 60000; type = repeated } ∷ [])
unfolding set_interval
interval = refl

timeout :
    set_timeout recorder 5 true tt []
    ≡ (ok stuck, record { has_callback = true; delay = 5; type = one_time } ∷ [])
unfolding set_timeout
timeout = refl

abbrev serve : Slot uv → Result (Unit {0}) × TimerState uv
serve s =
    if s.timer.handle.active
    then uv_timer_callback uv s.callback (expired uv laws s.timer)
    else uv_close_callback uv (record s.timer { handle = uv.finish_close s.timer.handle })

abbrev put_back :
    Callback uv
    → List (Slot uv)
    → Result (Unit {0}) × TimerState uv
    → Result (Unit {0}) × List (Slot uv)
put_back callback slots (result, t) = (result, record { callback = callback; timer = t } ∷ slots)

abbrev behind : Slot uv → Result (Unit {0}) × List (Slot uv) → Result (Unit {0}) × List (Slot uv)
behind s (result, slots) = (result, s ∷ slots)

abbrev run_once : Action (List (Slot uv)) (Unit {0})
run_once [] = (ok tt, [])
run_once (s ∷ slots) =
    let rest = run_once slots in
    if owed uv s.timer then put_back s.callback slots (serve s) else behind s rest

abbrev loop_init : Action (List (Slot uv)) ℕ
loop_init slots = (ok 0, slots)

when_false {ℓ} : {A : Type ℓ} (b : Bool) (x y : A) → b ≡ false → (if b then x else y) ≡ y
when_false b x y e = rw e refl

served-turn :
    (s : Slot uv) (slots : List (Slot uv))
    → IsReady uv laws s
    → owed uv s.timer ≡ true
    → (slots' : List (Slot uv)) × (n : ℕ) × (run_once (s ∷ slots) ≡ (ok tt, slots'))
      × Lives uv laws (s ∷ slots) (suc n) slots'
served-turn s slots r o = elim (Bool-cases s.timer.handle.active) [
  | inl act ↦
      let (u, ran) = expire-Returns uv laws s.callback s.timer r.tame r.returns r.live act in
      (
        record { callback = s.callback; timer = u } ∷ slots,
        0,
        rw (o, act, ran) refl,
        more_lives (goes_on begins (expires act ran)) (unmoved uv laws slots),
      )
  | inr idle ↦
      let due : s.timer.handle.due ≡ true = ground (arith, o, idle) in
      let (u, ran, v, held, gone, none_due) =
        uv_close_callback-ok uv laws s.timer r.live.valid due in
      (
        record { callback = s.callback; timer = u } ∷ slots,
        0,
        rw o (ap (put_back s.callback slots) (when_false _ _ _ idle ∙ ran)),
        more_lives (goes_on begins (closes due ran)) (unmoved uv laws slots),
      )
]

turn-Lives :
    (slots : List (Slot uv))
    → AllReady uv laws slots
    → any_owed uv slots ≡ true
    → (slots' : List (Slot uv)) × (n : ℕ) × (run_once slots ≡ (ok tt, slots'))
      × Lives uv laws slots (suc n) slots'
turn-Lives [] ready e = absurd (cc)
turn-Lives (s ∷ slots) (one_more r rs) e = elim (Bool-cases (owed uv s.timer)) [
  | inl o ↦ served-turn s slots r o
  | inr o ↦
      let (slots', n, ran, lives) = turn-Lives slots rs (rw o at e) in
      let moved : Lives uv laws (s ∷ slots) (0 + suc n) (s ∷ slots') = more_lives begins lives in
      let same : 0 + suc n ≡ suc n = omega arith in
      (s ∷ slots', n, rw (o, ran) refl, rw same at moved)
]

uv_loop : IsUvLoop uv laws loop_init (any_owed uv) run_once loop_init
uv_loop = record { init = refl; alive = λ slots. refl; turn = turn-Lives; close = λ slots e. refl }

-- A callback that stops its timer returns.
stop-Returns : Returns uv laws stop_self
stop-Returns t v open_ =
    let (u, ran, v', marks, idle, closing) = stop-ok uv laws t v open_ in (u, rw ran refl)

-- Three timeouts: one stops itself in its callback, and one is stopped at once.
abbrev three : List (Timeout uv laws blank)
three =
    record { ms = 5; callback = skip; stops_it = false }
    ∷ record { ms = 7; callback = stop_self; stops_it = false }
    ∷ record { ms = 0; callback = skip; stops_it = true }
    ∷ []

skip-Returns : Returns uv laws skip
skip-Returns t v o = (t, refl)

three-AllTame : AllTame uv laws blank three
three-AllTame = more_plan (skip-IsTame uv laws) skip-Returns (
    more_plan (stop-IsTame uv laws) stop-Returns
      (more_plan (skip-IsTame uv laws) skip-Returns no_plan))

main-served_example :
    (slots : List (Slot uv)) × (main uv laws blank loop_init
        (any_owed uv)
        run_once
        loop_init
        three
        10
        []
      ≡ (ok tt, slots))
    × AllServed uv laws blank three slots
main-served_example =
    main-served uv laws blank loop_init (any_owed uv) run_once loop_init three 10 uv_loop
      three-AllTame (omega arith)

-- An interval that stops itself the first time.
abbrev interval_running : List (Slot uv)
interval_running = record { callback = stop_self; timer = ticking } ∷ []

abbrev interval_gone : List (Slot uv)
interval_gone = record { callback = stop_self; timer = gone } ∷ []

interval-AllReady : AllReady uv laws interval_running
interval-AllReady =
    one_more
      (record {
        live = (create-IsLive uv laws every_minute blank ticking refl made).0;
        tame = stop-IsTame uv laws;
        returns = stop-Returns;
      })
      no_more

interval_runs :
    run loop_init (any_owed uv) run_once loop_init 3 interval_running ≡ (ok tt, interval_gone)
unfolding run uv_timer_callback uv_close_callback stop close_timer
interval_runs = refl

run-settled_example :
    all_settled uv laws loop_init (any_owed uv) run_once loop_init interval_gone ≡ true
run-settled_example =
    run-settled uv laws loop_init (any_owed uv) run_once loop_init 3 interval_running interval_gone
      uv_loop interval-AllReady interval_runs
