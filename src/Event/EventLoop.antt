-- ===== src/Event/EventLoop.antt =====
-- `EventLoop` and `UvEventLoop` (dk_pull/event/event_loop and dk_pull/event/event_provider.h).
pub mod Ends
pub mod Timers
use dk_pull.Base.{ℕ, zero, suc, Bool, true, false, ◌==◌}
use dk_pull.Base.Action.{Action, skip, out_of_fuel, abort_process, ◌>>=◌, ◌>>◌}
use dk_pull.Event.Timer.{Options, one_time, repeated, check}

pub data EventProvider : Type 0 where
  libuv libevent asio : EventProvider

-- What a client can do with a timer of a loop with the state `L`: the virtual function of `Timer`.
pub record Timer {ℓ} (L : Type ℓ) : Type ℓ where
  pub stop : Action L Bool

-- The virtual functions of `EventLoop`. A timer's callback stands beside its options.
pub record EventLoop {ℓ} (L : Type ℓ) (Callback : Type 0) : Type ℓ where
  pub run : ℕ → Action L (Unit {0})
  pub create_timer : Options → Callback → Action L (Timer L)

module _ {ℓ} {L : Type ℓ} {Callback : Type 0} (loop : EventLoop L Callback) where
  -- `EventLoop::SetInterval` and `SetTimeout`
  unfoldable pub set_interval : ℕ → Bool → Callback → Action L (Timer L)
  set_interval ms has_callback =
      loop.create_timer (record { has_callback = has_callback; delay = ms; type = repeated })

  unfoldable pub set_timeout : ℕ → Bool → Callback → Action L (Timer L)
  set_timeout ms has_callback =
      loop.create_timer (record { has_callback = has_callback; delay = ms; type = one_time })

-- `uv_loop_init`, `uv_loop_alive`, `uv_run` with `UV_RUN_ONCE` and `uv_loop_close`, on the state of
-- a loop and of everything that its callbacks reach.
module _ {ℓ} {L : Type ℓ} (loop_init : Action L ℕ) (loop_alive : L → Bool)
    (run_once : Action L (Unit {0})) (loop_close : Action L ℕ) where
  -- The constructor and the destructor.
  unfoldable pub construct : Action L (Unit {0})
  construct = do rc ← loop_init; check (rc == 0)

  unfoldable pub destroy : Action L (Unit {0})
  destroy = do rc ← loop_close; check (rc == 0)

  -- `EventLoop::Create`: libuv is the one provider that there is.
  unfoldable pub create : EventProvider → Action L (Unit {0})
  create libuv = construct
  create _ = abort_process

  -- `UvEventLoop::Run`
  unfoldable pub run : ℕ → Action L (Unit {0})
  run zero l = (out_of_fuel, l)
  run (suc fuel) l = elim (loop_alive l) [ true ↦ (do run_once; run fuel) l | false ↦ skip l ]
