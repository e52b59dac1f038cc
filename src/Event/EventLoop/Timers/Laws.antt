-- ===== src/Event/EventLoop/Timers/Laws.antt =====
-- What `UvEventLoop` (dk_pull/event/event_loop/uv_event_loop.cc) relies on in libuv's loop.
use dk_pull.Base.{ℕ, suc, ◌≡◌, Bool, true, false, List, []}
use dk_pull.Base.Action.{Action, ok}
use dk_pull.Event.Uv.{Uv, IsUv}
use dk_pull.Event.EventLoop.Timers.{Slot, any_owed, any_open}
use dk_pull.Event.EventLoop.Timers.Lives.{AllReady, Lives}

-- What the documentation of libuv says of a loop and its timers: it is alive as long as it owes a
-- timer something, a turn of `uv_run` with `UV_RUN_ONCE` then serves at least one timer, and it can
-- be closed when all its handles are.
pub record IsUvLoop (uv : Uv) (laws : IsUv uv) (loop_init : Action (List (Slot uv)) ℕ)
    (loop_alive : List (Slot uv) → Bool) (run_once : Action (List (Slot uv)) (Unit {0}))
    (loop_close : Action (List (Slot uv)) ℕ) : Type 0 where
  pub init : loop_init [] ≡ (ok 0, [])
  pub alive : (slots : List (Slot uv)) → loop_alive slots ≡ any_owed uv slots
  pub turn :
      (slots : List (Slot uv))
      → AllReady uv laws slots
      → loop_alive slots ≡ true
      → (slots' : List (Slot uv)) × (n : ℕ) × (run_once slots ≡ (ok tt, slots'))
        × Lives uv laws slots (suc n) slots'
  pub close :
      (slots : List (Slot uv)) → any_open uv slots ≡ false → loop_close slots ≡ (ok 0, slots)
