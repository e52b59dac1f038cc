-- ===== src/Event/Uv.antt =====
-- The part of libuv that a timer rests on: the calls of the code, what libuv's loop does to a timer
-- handle, and what the documentation of libuv says of them. A return code is 0 for success; a
-- negative one stands by its absolute value.
use dk_pull.Base.{ℕ, ◌≡◌, Bool, true, false, not, Option, some, ◌==◌}

pub record Uv : Type 1 where
  pub Handle : Type 0
  -- `uv_timer_init`, `uv_timer_start` with the timeout and the repeat in milliseconds,
  -- `uv_timer_stop` and `uv_is_closing`.
  pub timer_init : Handle → ℕ × Handle
  pub timer_start : ℕ → ℕ → Handle → ℕ × Handle
  pub timer_stop : Handle → ℕ × Handle
  pub is_closing : Handle → Bool
  -- `uv_close`, with whether there is a close callback; `none` is the assertion that fails on a
  -- handle that is closing already.
  pub close : Bool → Handle → Option Handle
  -- What the loop does: is the timer running, with what timeout and repeat; the timer's expiry,
  -- before its callback; is a close callback due, and its call.
  pub is_active : Handle → Bool
  pub timeout_of : Handle → ℕ
  pub repeat_of : Handle → ℕ
  pub expire : Handle → Handle
  pub close_due : Handle → Bool
  pub finish_close : Handle → Handle

-- What the documentation says.
module _ (uv : Uv) where
  open uv use {
    Handle, timer_init, timer_start, timer_stop, is_closing, close, is_active, timeout_of,
    repeat_of, expire, close_due, finish_close,
  }

  pub record IsUv : Type 0 where
    pub init_ok : (h : Handle) → (timer_init h).0 ≡ 0
    pub init_open : (h : Handle) → is_closing (timer_init h).1 ≡ false
    pub init_idle : (h : Handle) → is_active (timer_init h).1 ≡ false
    pub init_due : (h : Handle) → close_due (timer_init h).1 ≡ false
    pub start_ok : (t r : ℕ) (h : Handle) → is_closing h ≡ false → (timer_start t r h).0 ≡ 0
    pub start_active :
        (t r : ℕ) (h : Handle) → is_closing h ≡ false → is_active (timer_start t r h).1 ≡ true
    pub start_timeout :
        (t r : ℕ) (h : Handle) → is_closing h ≡ false → timeout_of (timer_start t r h).1 ≡ t
    pub start_repeat :
        (t r : ℕ) (h : Handle) → is_closing h ≡ false → repeat_of (timer_start t r h).1 ≡ r
    pub start_closing : (t r : ℕ) (h : Handle) → is_closing (timer_start t r h).1 ≡ is_closing h
    pub start_due : (t r : ℕ) (h : Handle) → close_due (timer_start t r h).1 ≡ close_due h
    pub stop_ok : (h : Handle) → (timer_stop h).0 ≡ 0
    pub stop_idle : (h : Handle) → is_active (timer_stop h).1 ≡ false
    pub stop_closing : (h : Handle) → is_closing (timer_stop h).1 ≡ is_closing h
    pub stop_due : (h : Handle) → close_due (timer_stop h).1 ≡ close_due h
    pub close_closing :
        (callback : Bool) (h : Handle)
        → is_closing h ≡ false
        → (h' : Handle) × (close callback h ≡ some h')
          × (is_closing h' ≡ true)
          × (is_active h' ≡ false)
          × (close_due h' ≡ callback)
    -- A timer that expires is stopped, and started again if its repeat is not 0.
    pub expire_active : (h : Handle) → is_active (expire h) ≡ not (repeat_of h == 0)
    pub expire_repeat : (h : Handle) → repeat_of (expire h) ≡ repeat_of h
    pub expire_closing : (h : Handle) → is_closing (expire h) ≡ is_closing h
    pub expire_due : (h : Handle) → close_due (expire h) ≡ close_due h
    pub finish_closing : (h : Handle) → is_closing (finish_close h) ≡ is_closing h
    pub finish_idle : (h : Handle) → is_active (finish_close h) ≡ is_active h
    pub finish_due : (h : Handle) → close_due (finish_close h) ≡ false
