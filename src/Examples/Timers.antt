-- ===== src/Examples/Timers.antt =====
-- Timers over a libuv of its own, which does what is documented and no more.
use dk_pull.Base.{
  ℕ, ◌≡◌, refl, ◌+◌, ◌≤◌, Bool, true, false, not, ◌&&◌, ◌||◌, Option, none, some, if◌then◌else◌,
  ◌==◌,
}
use dk_pull.Base.Action.{Action, ok, skip, ◌>>=◌}
use dk_pull.Event.Uv.{Uv, IsUv}
use dk_pull.Event.Timer.{
  Options, UvTimer, one_time, repeated, fresh, construct, start, create, stop, close_timer,
  uv_close_callback, uv_timer_callback,
}
use dk_pull.Event.Timer.Lifetime.{IsValid, stop-ok}
use dk_pull.Event.Timer.Runs.{Reach, here, next, expires, closes, create-ok, stop-Keeps, Reach-safe}
use dk_pull.Event.Timer.Life.{stop-IsTame, skip-IsTame}
use dk_pull.Event.Timer.Ends.{Life, begins, goes_on}
use dk_pull.Event.Timer.Closes.{Life-progress, one_time-ends, one_time-closes}

pub record Handle : Type 0 where
  pub active : Bool
  pub timeout : ℕ
  pub again : ℕ
  pub closing : Bool
  pub due : Bool

abbrev pub blank : Handle
blank = record { active = false; timeout = 0; again = 0; closing = false; due = false }

abbrev closed_by : Bool → Handle → Option Handle
closed_by callback h =
    if h.closing then none else some (record h { active = false; closing = true; due = callback })

abbrev pub uv : Uv
uv = record {
  Handle = Handle;
  timer_init = λ h. (0, blank);
  timer_start = λ t r h.
      (if h.closing then 22 else 0, record h { active = not h.closing; timeout = t; again = r });
  timer_stop = λ h. (0, record h { active = false });
  is_closing = λ h. h.closing;
  close = closed_by;
  is_active = λ h. h.active;
  timeout_of = λ h. h.timeout;
  repeat_of = λ h. h.again;
  expire = λ h. record h { active = not (h.again == 0) };
  close_due = λ h. h.due;
  finish_close = λ h. record h { due = false };
}

pub laws : IsUv uv
laws = record {
  init_ok = λ h. refl;
  init_open = λ h. refl;
  init_idle = λ h. refl;
  init_due = λ h. refl;
  start_ok = λ t r h k. rw k refl;
  start_active = λ t r h k. rw k refl;
  start_timeout = λ t r h k. refl;
  start_repeat = λ t r h k. refl;
  start_closing = λ t r h. refl;
  start_due = λ t r h. refl;
  stop_ok = λ h. refl;
  stop_idle = λ h. refl;
  stop_closing = λ h. refl;
  stop_due = λ h. refl;
  close_closing = λ callback h k.
      (record h { active = false; closing = true; due = callback }, rw k refl, refl, refl, refl);
  expire_active = λ h. refl;
  expire_repeat = λ h. refl;
  expire_closing = λ h. refl;
  expire_due = λ h. refl;
  finish_closing = λ h. refl;
  finish_idle = λ h. refl;
  finish_due = λ h. refl;
}

abbrev pub every_minute : Options
every_minute = record { has_callback = true; delay = 60000; type = repeated }

abbrev pub once : Options
once = record { has_callback = true; delay = 5; type = one_time }

-- A timer of each type just after its creation, and an expired one whose handle is closing.
abbrev pub ticking : UvTimer Handle
ticking =
    record (fresh uv every_minute (record blank { active = true; timeout = 60000; again = 1 })) {
      started = true;
      self_held = true;
    }

abbrev pub waiting : UvTimer Handle
waiting = record (fresh uv once (record blank { active = true; timeout = 5 })) {
  started = true;
  self_held = true;
}

abbrev leaving : UvTimer Handle
leaving = record waiting { handle = record blank { timeout = 5; closing = true; due = true } }

ticking-IsValid : IsValid uv laws ticking
ticking-IsValid = record {
  sound = record {
    is_started = refl;
    closing_idle = refl;
    closed_closing = refl;
    due = refl;
    held = refl;
  };
  stopped_closing = refl;
}

leaving-IsValid : IsValid uv laws leaving
leaving-IsValid = record {
  sound = record {
    is_started = refl;
    closing_idle = refl;
    closed_closing = refl;
    due = refl;
    held = refl;
  };
  stopped_closing = refl;
}

stop-ok_example :
    (t' : UvTimer Handle) × (stop uv leaving ≡ (ok true, t'))
    × IsValid uv laws t'
    × (t'.stopped ≡ true)
    × (t'.handle.active ≡ false)
    × (t'.handle.closing ≡ true)
stop-ok_example = stop-ok uv laws leaving leaving-IsValid refl

-- The interval of a minute has a repeat of a millisecond.
create-ok_example :
    (t : UvTimer Handle) × (create uv (fresh uv every_minute blank) ≡ (ok tt, t))
    × IsValid uv laws t
    × (t.stopped ≡ false)
    × (t.self_held ≡ true)
    × (t.handle.active ≡ true)
    × (t.handle.timeout ≡ 60000)
    × (t.handle.again ≡ 1)
create-ok_example = create-ok uv laws every_minute blank refl

-- A repeated timer that stops itself in its callback, and whose handle is closed then.
abbrev pub stop_self : Action (UvTimer Handle) (Unit {0})
stop_self = do rc ← stop uv; skip

abbrev pub stopped_now : UvTimer Handle
stopped_now = record ticking {
  stopped = true;
  handle = record blank { timeout = 60000; again = 1; closing = true; due = true };
}

abbrev pub gone : UvTimer Handle
gone = record ticking {
  stopped = true;
  closed = true;
  self_held = false;
  handle = record blank { timeout = 60000; again = 1; closing = true };
}

pub made : create uv (fresh uv every_minute blank) ≡ (ok tt, ticking)
unfolding create construct start
made = refl

pub fires :
    uv_timer_callback uv stop_self (record ticking { handle = uv.expire ticking.handle })
    ≡ (ok tt, stopped_now)
unfolding uv_timer_callback stop close_timer
fires = refl

pub lets_go :
    uv_close_callback uv (record stopped_now { handle = uv.finish_close stopped_now.handle })
    ≡ (ok tt, gone)
unfolding uv_close_callback
lets_go = refl

history : Reach uv laws stop_self ticking gone
history = next (next here (expires refl fires)) (closes refl lets_go)

Reach-safe_example : ((true && false) ≡ false) × (false ≡ (true && false)) × (false ≡ not true)
Reach-safe_example =
    Reach-safe uv laws every_minute blank stop_self ticking gone refl (stop-Keeps uv laws) made
      history

-- The same timer, its steps counted.
counted : Life uv laws stop_self ticking 1 2 gone
counted = goes_on (goes_on begins (expires refl fires)) (closes refl lets_go)

Life-progress_example : ((true || (false || false)) ≡ true) × ((false || (true || false)) ≡ true)
Life-progress_example =
    Life-progress uv laws every_minute blank stop_self ticking gone 1 2 refl (stop-IsTame uv laws)
      made counted

-- A timeout that has expired.
waits : create uv (fresh uv once blank) ≡ (ok tt, waiting)
unfolding create construct start
waits = refl

expires_once :
    uv_timer_callback uv skip (record waiting { handle = uv.expire waiting.handle })
    ≡ (ok tt, leaving)
unfolding uv_timer_callback close_timer
expires_once = refl

over : Life uv laws skip waiting 1 1 leaving
over = goes_on begins (expires refl expires_once)

one_time-ends_example : (1 ≤ 3) × (1 ≤ 1) × ((true || (not true && (false || true))) ≡ true)
one_time-ends_example =
    one_time-ends uv laws once blank skip waiting leaving 1 1 refl refl (skip-IsTame uv laws) waits
      over

one_time-closes_example :
    (f : ℕ) × (n : ℕ) × (v : UvTimer Handle) × Life uv laws skip leaving f n v
    × (v.closed ≡ true)
    × ((v.stopped || (1 + f == 1)) ≡ true)
    × (1 + n ≤ 3)
one_time-closes_example =
    one_time-closes uv laws once blank skip waiting leaving 1 1 refl refl (skip-IsTame uv laws)
      (λ t v o. (t, refl)) waits over
