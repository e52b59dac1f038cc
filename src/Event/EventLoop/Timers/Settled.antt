-- ===== src/Event/EventLoop/Timers/Settled.antt =====
-- What `UvEventLoop::Run` (dk_pull/event/event_loop/uv_event_loop.cc) leaves behind.
use dk_pull.Base.{
  ℕ, zero, suc, ◌≡◌, refl, sym, ◌∙◌, Bool, true, false, not, ◌&&◌, ◌||◌, List, [], ◌∷◌, arith, inl,
  inr, Bool-cases,
}
use dk_pull.Base.Action.{Action, ok}
use dk_pull.Event.Uv.{Uv, IsUv}
use dk_pull.Event.Timer.{TimerState, is_one_time}
use dk_pull.Event.Timer.Life.{active, closing}
use dk_pull.Event.EventLoop.{run}
use dk_pull.Event.EventLoop.Timers.{Slot, owed, any_owed}
use dk_pull.Event.EventLoop.Timers.Laws.{IsUvLoop}
use dk_pull.Event.EventLoop.Timers.Lives.{AllReady, no_more, one_more, Lives-ready}

module _ (uv : Uv) (laws : IsUv uv) (loop_init : Action (List (Slot uv)) ℕ)
    (loop_alive : List (Slot uv) → Bool) (run_once : Action (List (Slot uv)) (Unit {0}))
    (loop_close : Action (List (Slot uv)) ℕ) where
  run-ready :
      (fuel : ℕ) (slots slots' : List (Slot uv))
      → IsUvLoop uv laws loop_init loop_alive run_once loop_close
      → AllReady uv laws slots
      → run loop_init loop_alive run_once loop_close fuel slots ≡ (ok tt, slots')
      → AllReady uv laws slots' × (loop_alive slots' ≡ false)
  unfolding run
  run-ready zero slots slots' loop ready e = absurd (cc)
  run-ready (suc fuel) slots slots' loop ready e = elim (Bool-cases (loop_alive slots)) [
    | inl alive ↦
        let (m, n, once, lives) = loop.turn slots ready alive in
        run-ready fuel m slots' loop (Lives-ready uv laws ready lives) (rw (alive, run, once) at e)
    | inr dead ↦ let same : slots ≡ slots' = (cc (rw (dead, run) at e)) in rw (← same) (ready, dead)
  ]

  -- A timer with which all is over.
  abbrev pub settled : TimerState uv → Bool
  settled t = t.closed && (not t.self_held && (is_one_time t.type || t.stopped))

  abbrev pub all_settled : List (Slot uv) → Bool
  all_settled [] = true
  all_settled (s ∷ slots) = settled s.timer && all_settled slots

  over :
      (k a d c h o s : Bool)
      → (k || a) ≡ true
      → d ≡ (k && not c)
      → h ≡ not c
      → (o || (not k || s)) ≡ true
      → (a || d) ≡ false
      → (c && (not h && (o || s))) ≡ true
  over k a d c h o s e f g i j = ground arith

  or_parts : (a b : Bool) → (a || b) ≡ false → (a ≡ false) × (b ≡ false)
  or_parts a b e = (ground arith, ground arith)

  idle-settled :
      (slots : List (Slot uv))
      → AllReady uv laws slots
      → any_owed uv slots ≡ false
      → all_settled slots ≡ true
  idle-settled [] no_more e = refl
  idle-settled (s ∷ slots) (one_more r rs) e =
      let (here, there) = or_parts (owed uv s.timer) _ e in
      let l = r.live in
      let t = s.timer in
      let now =
        over (closing uv laws t) (active uv laws t) (uv.close_due t.handle) t.closed t.self_held
          (is_one_time t.type) t.stopped l.running l.valid.sound.due l.valid.sound.held l.wanted
          here in
      rw (now, idle-settled slots rs there) refl

  -- With libuv as documented: `Run` of a loop with any timers at rest, whose callbacks return and
  -- do no more to their timers than a stop may, returns only when every timer is closed and has let
  -- itself go and every repeated one was stopped.
  pub run-settled :
      (fuel : ℕ) (slots slots' : List (Slot uv))
      → IsUvLoop uv laws loop_init loop_alive run_once loop_close
      → AllReady uv laws slots
      → run loop_init loop_alive run_once loop_close fuel slots ≡ (ok tt, slots')
      → all_settled slots' ≡ true
  run-settled fuel slots slots' loop ready e =
      let (ready', dead) = run-ready fuel slots slots' loop ready e in
      idle-settled slots' ready' (sym (loop.alive slots') ∙ dead)
