-- ===== src/Event/EventLoop/Timers.antt =====
-- The timers of a `UvEventLoop` (dk_pull/event/event_loop/uv_event_loop.cc). The state of a loop is
-- its timers, each with its callback, in the order of their creation.
pub mod Lives
pub mod Laws
pub mod Timeouts
pub mod Rounds
pub mod Settled
use dk_pull.Base.{ℕ, zero, suc, length, Bool, false, ◌||◌, not, List, [], ◌∷◌, ◌++◌}
use dk_pull.Base.Action.{Action, ok, fatal, and_then}
use dk_pull.Event.Uv.{Uv}
use dk_pull.Event.Timer.{Options, TimerState, fresh, create, stop}
use dk_pull.Event.EventLoop.{Timer, EventLoop, run}

module _ (uv : Uv) where
  open uv use {Handle, is_active, close_due}

  abbrev pub Callback : Type 0
  Callback = Action (TimerState uv) (Unit {0})

  pub record Slot : Type 0 where
    pub callback : Callback
    pub timer : TimerState uv

  -- A call on the timer at a place. There is none behind the last.
  abbrev pub on_timer {κ} : {A : Type κ} → ℕ → Action (TimerState uv) A → Action (List Slot) A
  on_timer i call [] = (fatal, [])
  on_timer zero call (s ∷ slots) =
      let (result, t) = call s.timer in
      (result, record { callback = s.callback; timer = t } ∷ slots)
  on_timer (suc i) call (s ∷ slots) =
      let (result, rest) = on_timer i call slots in (result, s ∷ rest)

  -- `UvEventLoop::CreateTimer`, with the memory of the new timer's handle.
  unfoldable pub create_timer : Handle → Options → Callback → Action (List Slot) (Timer (List Slot))
  create_timer memory options callback slots =
      let (result, timer) = create uv (fresh uv options memory) in
      and_then (result, slots)
        (λ _ kept. (
          ok (record { stop = on_timer (length kept) (stop uv) }),
          kept ++ record { callback = callback; timer = timer } ∷ [],
        ))

  -- What libuv owes a timer: its expiry, or its close callback.
  abbrev pub owed : TimerState uv → Bool
  owed t = is_active t.handle || close_due t.handle

  abbrev pub any_owed : List Slot → Bool
  any_owed [] = false
  any_owed (s ∷ slots) = owed s.timer || any_owed slots

  abbrev pub any_open : List Slot → Bool
  any_open [] = false
  any_open (s ∷ slots) = not s.timer.closed || any_open slots

  module _ (memory : Handle) (loop_init : Action (List Slot) ℕ) (loop_alive : List Slot → Bool)
      (run_once : Action (List Slot) (Unit {0})) (loop_close : Action (List Slot) ℕ) where
    -- `UvEventLoop` as an `EventLoop`
    abbrev pub uv_event_loop : EventLoop (List Slot) Callback
    uv_event_loop = record {
      run = run loop_init loop_alive run_once loop_close;
      create_timer = create_timer memory;
    }
