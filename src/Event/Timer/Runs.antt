-- ===== src/Event/Timer/Runs.antt =====
-- `UvTimer` (dk_pull/event/timer/uv_timer.cc) from its creation on, under any sequence of stops,
-- expiries and closings.
use dk_pull.Base.{
  ℕ, ◌≡◌, refl, sym, ◌∙◌, ap, Bool, true, false, not, ◌&&◌, inl, inr, arith, Bool-cases,
  if◌then◌else◌,
}
use dk_pull.Base.Action.{Action, Result, ok, skip, and_then-ok, ◌>>=◌}
use dk_pull.Event.Uv.{Uv, IsUv}
use dk_pull.Event.Timer.{
  Options, is_one_time, fresh, construct, init_handle, start, start_handle, create, stop,
  uv_close_callback, uv_timer_callback, TimerState,
}
use dk_pull.Event.Timer.Lifetime.{
  IsValid, check_passes, stop-ok, stop-again, uv_timer_callback-ok, expire-IsValid,
  uv_close_callback-ok,
}

module _ (uv : Uv) (laws : IsUv uv) where
  open uv use {
    Handle, timer_init, timer_start, timer_stop, is_closing, close, is_active, timeout_of,
    repeat_of, expire, close_due, finish_close,
  }

  -- What `start` hands to libuv as the repeat.
  abbrev pub repeat_for : Options → ℕ
  repeat_for options = if is_one_time options.type then 0 else 1

  pub construct-ok :
      (options : Options) (handle : Handle)
      → options.has_callback ≡ true
      → construct uv (fresh uv options handle) ≡ (ok tt, fresh uv options (timer_init handle).1)
  unfolding construct
  construct-ok options handle cb =
      check_passes options.has_callback (init_handle uv (fresh uv options handle))
        (fresh uv options handle) cb
      ∙ rw (laws.init_ok handle) refl

  pub start-ok :
      (options : Options) (h : Handle)
      → is_closing h ≡ false
      → start uv (fresh uv options h) ≡ (
        ok true,
        record (fresh uv options (timer_start options.delay (repeat_for options) h).1) {
          started = true;
          self_held = true;
        },
      )
  unfolding start
  start-ok options h open_ =
      check_passes (not (is_closing h)) (start_handle uv (fresh uv options h)) (fresh uv options h)
        (ap not open_)
      ∙ rw (laws.start_ok options.delay (repeat_for options) h open_) refl

  -- With libuv as documented, a timer with a callback is created, runs, holds itself, and is valid.
  -- Its timeout is the delay that was asked for; its repeat is 1 if it is repeated, whatever the
  -- delay, and 0 otherwise.
  pub create-ok :
      (options : Options) (handle : Handle)
      → options.has_callback ≡ true
      → (t : TimerState uv) × (create uv (fresh uv options handle) ≡ (ok tt, t))
        × IsValid uv laws t
        × (t.stopped ≡ false)
        × (t.self_held ≡ true)
        × (is_active t.handle ≡ true)
        × (timeout_of t.handle ≡ options.delay)
        × (repeat_of t.handle ≡ repeat_for options)
  unfolding create
  create-ok options handle cb =
      let h = (timer_init handle).1 in
      let open_ : is_closing h ≡ false = laws.init_open handle in
      let r = repeat_for options in
      let h' = (timer_start options.delay r h).1 in
      let k : is_closing h' ≡ false = laws.start_closing options.delay r h ∙ open_ in
      let d : close_due h' ≡ false = laws.start_due options.delay r h ∙ laws.init_due handle in
      (
        record (fresh uv options h') { started = true; self_held = true },
        rw (construct-ok options handle cb, start-ok options h open_) refl,
        record {
          sound = record {
            is_started = refl;
            closing_idle = rw k refl;
            closed_closing = refl;
            due = d ∙ rw k refl;
            held = refl;
          };
          stopped_closing = refl;
        },
        refl,
        refl,
        laws.start_active options.delay r h open_,
        laws.start_timeout options.delay r h open_,
        laws.start_repeat options.delay r h open_,
      )

  -- What can happen to a timer: the user stops it, libuv finds it expired and runs its callback, or
  -- libuv calls its close callback.
  pub data Step (callback : Action (TimerState uv) (Unit {0})) (t u : TimerState uv) : Type 0 where
    stops : stop uv t ≡ (ok true, u) → Step callback t u
    expires :
        is_active t.handle ≡ true
        → uv_timer_callback uv callback (record t { handle = expire t.handle }) ≡ (ok tt, u)
        → Step callback t u
    closes :
        close_due t.handle ≡ true
        → uv_close_callback uv (record t { handle = finish_close t.handle }) ≡ (ok tt, u)
        → Step callback t u

  pub data Reach (callback : Action (TimerState uv) (Unit {0})) (t : TimerState uv)
      : TimerState uv → Type 0 where
    here : Reach callback t t
    next : {u v : TimerState uv} → Reach callback t u → Step callback u v → Reach callback t v

  -- The user's code in the callback uses the timer only through what keeps it valid, such as
  -- `Stop`.
  abbrev pub Keeps : Action (TimerState uv) (Unit {0}) → Type 0
  Keeps callback =
      (t u : TimerState uv) → IsValid uv laws t → callback t ≡ (ok tt, u) → IsValid uv laws u

  pub same_end :
      {A : Type 0} (p : Result A × TimerState uv) (a b : A) (t u : TimerState uv)
      → p ≡ (ok a, t)
      → p ≡ (ok b, u)
      → t ≡ u
  same_end p a b t u e f = cc

  pub callback_ran :
      (callback : Action (TimerState uv) (Unit {0})) (t u : TimerState uv)
      → uv_timer_callback uv callback t ≡ (ok tt, u)
      → (one : Unit {0}) × (w : TimerState uv) × (callback t ≡ (ok tt, w)) × Unit {0}
  unfolding uv_timer_callback
  callback_ran callback t u e =
      let (one, w, run, rest) = and_then-ok (callback t) _ e in (tt, w, run, tt)

  pub Step-IsValid :
      (callback : Action (TimerState uv) (Unit {0})) (t u : TimerState uv)
      → Keeps callback
      → Step callback t u
      → IsValid uv laws t
      → IsValid uv laws u
  Step-IsValid callback t u keeps (stops e) v = elim (Bool-cases t.stopped) [
    | inl again ↦ absurd (cc (stop-again uv laws t v.sound.is_started again))
    | inr open_ ↦
        let (u', run, v', s, a, k) = stop-ok uv laws t v open_ in
        rw (same_end (stop uv t) true true u u' e run) v'
  ]
  Step-IsValid callback t u keeps (expires active e) v =
      let t0 = record t { handle = expire t.handle } in
      let (one, w, run, rest) = callback_ran callback t0 u e in
      let v0 = expire-IsValid uv laws t v active in
      let (u', ran, v', c, a) =
        uv_timer_callback-ok uv laws callback t0 w run (keeps t0 w v0 run) in
      rw (same_end (uv_timer_callback uv callback t0) tt tt u u' e ran) v'
  Step-IsValid callback t u keeps (closes due e) v =
      let (u', run, v', before, now, done) = uv_close_callback-ok uv laws t v due in
      rw
        (same_end (uv_close_callback uv (record t { handle = finish_close t.handle })) tt tt u u' e
          run)
        v'

  -- Whatever happens to a timer after its creation, it stays valid; so a timer that has been
  -- stopped never runs again, and it holds itself until its close callback has been called.
  pub Reach-IsValid :
      (callback : Action (TimerState uv) (Unit {0})) (t u : TimerState uv)
      → Keeps callback
      → IsValid uv laws t
      → Reach callback t u
      → IsValid uv laws u
  Reach-IsValid callback t u keeps v here = v
  Reach-IsValid callback t u keeps v (next {u = w} r s) =
      Step-IsValid callback w u keeps s (Reach-IsValid callback t w keeps v r)

  -- A callback that stops the timer keeps it valid.
  pub stop-Keeps : Keeps (do rc ← stop uv; skip)
  stop-Keeps t u v e = elim (Bool-cases t.stopped) [
    | inl again ↦ absurd (cc (rw (stop-again uv laws t v.sound.is_started again) at e))
    | inr open_ ↦
        let (u', run, v', s, a, k) = stop-ok uv laws t v open_ in
        rw (same_end (ok tt, u) tt tt u u' refl (sym e ∙ rw run refl)) v'
  ]

  never_again : (s k a : Bool) → (k && a) ≡ false → (s && not k) ≡ false → (s && a) ≡ false
  never_again s k a h e = ground arith

  -- With libuv as documented, a timer that was created with a callback which uses the timer only
  -- through what keeps it valid, as `Stop` does, and whatever has happened to it since: once it has been stopped it does not run, its close callback is due if its handle
  -- is closing and the callback has not been called, and it holds itself until then.
  pub Reach-safe :
      (options : Options) (handle : Handle) (callback : Action (TimerState uv) (Unit {0}))
      (t u : TimerState uv)
      → options.has_callback ≡ true
      → Keeps callback
      → create uv (fresh uv options handle) ≡ (ok tt, t)
      → Reach callback t u
      → ((u.stopped && is_active u.handle) ≡ false)
        × (close_due u.handle ≡ (is_closing u.handle && not u.closed))
        × (u.self_held ≡ not u.closed)
  Reach-safe options handle callback t u cb keeps made r =
      let (t0, run, v0, a, b, c, d, e) = create-ok options handle cb in
      let v : IsValid uv laws t =
        rw (same_end (create uv (fresh uv options handle)) tt tt t t0 made run) v0 in
      let v' = Reach-IsValid callback t u keeps v r in
      (
        never_again u.stopped (is_closing u.handle) (is_active u.handle) v'.sound.closing_idle
            v'.stopped_closing,
        v'.sound.due,
        v'.sound.held,
      )
