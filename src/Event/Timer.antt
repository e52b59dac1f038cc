-- ===== src/Event/Timer.antt =====
-- `Timer` and `UvTimer` (dk_pull/event/timer/timer.h, uv_timer.h and uv_timer.cc). A timer's state
-- holds its libuv handle; `self_held` says whether the member `self` holds the timer itself.
pub mod Lifetime
pub mod Runs
pub mod Life
pub mod Moves
pub mod Ends
pub mod Closes
pub mod Intervals
use dk_pull.Base.{ℕ, Bool, true, false, not, ◌||◌, Option, none, some, ◌==◌, if◌then◌else◌}
use dk_pull.Base.Action.{Action, pure, skip, abort_process, ◌>>=◌, ◌>>◌}
use dk_pull.Event.Uv.{Uv}

-- `Timer::Type`
pub data TimerType : Type 0 where
  one_time repeated : TimerType

-- `Timer::Options`, with whether the callback is not empty.
pub record Options : Type 0 where
  pub has_callback : Bool
  pub delay : ℕ
  pub type : TimerType

pub record UvTimer (Handle : Type 0) : Type 0 where
  pub has_callback : Bool
  pub delay : ℕ
  pub type : TimerType
  pub self_held : Bool
  pub started : Bool
  pub stopped : Bool
  pub closed : Bool
  pub handle : Handle

-- A failed `CHECK` aborts the process.
abbrev pub check {ℓ} : {W : Type ℓ} → Bool → Action W (Unit {0})
check true = skip
check false = abort_process

abbrev pub is_one_time : TimerType → Bool
is_one_time one_time = true
is_one_time repeated = false

module _ (uv : Uv) where
  open uv use {Handle, timer_init, timer_start, timer_stop, is_closing, close}

  abbrev pub TimerState : Type 0
  TimerState = UvTimer Handle

  abbrev pub get : Action TimerState TimerState
  get t = pure t t

  abbrev pub put : TimerState → Action TimerState (Unit {0})
  put t _ = pure tt t

  -- The members before the constructor's body, around a fresh handle.
  abbrev pub fresh : Options → Handle → TimerState
  fresh options handle = record {
    has_callback = options.has_callback;
    delay = options.delay;
    type = options.type;
    self_held = false;
    started = false;
    stopped = false;
    closed = false;
    handle = handle;
  }

  -- The constructor's body, behind its check of the callback and whole.
  abbrev pub init_handle : TimerState → Action TimerState (Unit {0})
  init_handle t = do
    let (rc, handle) = timer_init t.handle
    put (record t { handle = handle })
    check (rc == 0)

  unfoldable pub construct : Action TimerState (Unit {0})
  construct = do t ← get; check t.has_callback; init_handle t

  -- `UvTimer::start`, behind its three checks and whole.
  abbrev pub start_handle : TimerState → Action TimerState Bool
  start_handle t = do
    let repeat : ℕ = if is_one_time t.type then 0 else 1
    let (rc, handle) = timer_start t.delay repeat t.handle
    put (record t { started = true; handle = handle; self_held = true })
    pure (rc == 0)

  unfoldable pub start : Action TimerState Bool
  start = do
    t ← get
    check (not t.started)
    check (not t.stopped)
    check (not (is_closing t.handle))
    start_handle t

  -- `UvTimer::Create`: what `start` returns is not looked at.
  unfoldable pub create : Action TimerState (Unit {0})
  create = do construct; rc ← start; skip

  -- The assertion in `uv_close`.
  abbrev or_assert : TimerState → Option Handle → Action TimerState (Unit {0})
  or_assert t none = abort_process
  or_assert t (some handle) = put (record t { handle = handle })

  -- `UvTimer::close`
  unfoldable pub close_timer : Action TimerState (Unit {0})
  close_timer = do
    t ← get
    if t.closed || is_closing t.handle then skip else or_assert t (close t.started t.handle)

  -- `UvTimer::Stop`, behind its two checks and whole.
  abbrev pub stop_handle : TimerState → Action TimerState Bool
  stop_handle t = do
    let (rc, handle) = timer_stop t.handle
    put (record t { stopped = true; handle = handle })
    close_timer
    pure (rc == 0)

  unfoldable pub stop : Action TimerState Bool
  stop = do t ← get; check t.started; check (not t.stopped); stop_handle t

  -- `UvTimer::uvCloseCallback`
  unfoldable pub uv_close_callback : Action TimerState (Unit {0})
  uv_close_callback = do t ← get; put (record t { closed = true; self_held = false })

  -- `UvTimer::uvTimerCallback`, around the callback that the timer was given.
  unfoldable pub uv_timer_callback : Action TimerState (Unit {0}) → Action TimerState (Unit {0})
  uv_timer_callback callback = do
    callback
    t ← get
    if is_one_time t.type then close_timer else skip
