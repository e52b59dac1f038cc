-- ===== src/Event/Timer/Lifetime.antt =====
-- The operations of `UvTimer` (dk_pull/event/timer/uv_timer.cc) one by one, and what holds of a
-- timer between them.
use dk_pull.Base.{
  ◌≡◌, refl, sym, ◌∙◌, ap, Bool, true, false, not, ◌&&◌, ◌||◌, inl, inr, arith, Bool-cases,
}
use dk_pull.Base.Action.{Action, ok, fatal, ◌>>◌}
use dk_pull.Event.Uv.{Uv, IsUv}
use dk_pull.Event.Timer.{
  is_one_time, close_timer, stop, check, stop_handle, uv_close_callback, uv_timer_callback,
  TimerState,
}

closed_or_closing : (c k : Bool) → (c && not k) ≡ false → (c || k) ≡ true → k ≡ true
closed_or_closing c k h e = ground arith

idle_of_closing : (k a : Bool) → (k && a) ≡ false → k ≡ true → a ≡ false
idle_of_closing k a h e = ground arith

closing_not_closed : (k c : Bool) → (k && not c) ≡ true → (k ≡ true) × (c ≡ false)
closing_not_closed k c h = (ground arith, ground arith)

and_false : (k : Bool) → (k && false) ≡ false
and_false true = refl
and_false false = refl

neither : (c k : Bool) → (c || k) ≡ false → (c ≡ false) × (k ≡ false)
neither c k e = (ground arith, ground arith)

pub check_passes {ℓ κ} :
    {W : Type ℓ} {A : Type κ} (b : Bool) (k : Action W A) (w : W)
    → b ≡ true
    → (check b >> k) w ≡ k w
check_passes true k w e = refl
check_passes false k w e = absurd (cc)

module _ (uv : Uv) (laws : IsUv uv) where
  open uv use {
    Handle, timer_init, timer_start, timer_stop, is_closing, close, is_active, timeout_of,
    repeat_of, expire, close_due, finish_close,
  }

  -- What holds of a timer with its handle at any time but in the middle of `Stop`: a handle that is
  -- closing does not run, one that was closed is closing, its close callback is due until it has
  -- been called, and the timer holds itself until then, so that its memory outlives the handle.
  pub record IsSound (t : TimerState uv) : Type 0 where
    pub is_started : t.started ≡ true
    pub closing_idle : (is_closing t.handle && is_active t.handle) ≡ false
    pub closed_closing : (t.closed && not (is_closing t.handle)) ≡ false
    pub due : close_due t.handle ≡ (is_closing t.handle && not t.closed)
    pub held : t.self_held ≡ not t.closed

  -- A stopped timer's handle is closing.
  pub record IsValid (t : TimerState uv) : Type 0 where
    pub sound : IsSound t
    pub stopped_closing : (t.stopped && not (is_closing t.handle)) ≡ false

  -- With libuv as documented, `close` on a sound timer never runs into the assertion of `uv_close`.
  -- Afterwards the timer is sound and its handle is closing; its type and its mark of a stop are as
  -- before.
  pub close_timer-ok :
      (t : TimerState uv)
      → IsSound t
      → (t' : TimerState uv) × (close_timer uv t ≡ (ok tt, t'))
        × IsSound t'
        × (is_closing t'.handle ≡ true)
        × (t'.stopped ≡ t.stopped)
        × (t'.type ≡ t.type)
  unfolding close_timer
  close_timer-ok t s = elim (Bool-cases (t.closed || is_closing t.handle)) [
    | inl done ↦ (
      t,
      rw done refl,
      s,
      closed_or_closing t.closed (is_closing t.handle) s.closed_closing done,
      refl,
      refl,
    )
    | inr open_ ↦
        let (c, k) = neither t.closed (is_closing t.handle) open_ in
        let (h, closes, closing, idle, due_now) = laws.close_closing t.started t.handle k in
        (
          record t { handle = h },
          rw (open_, closes) refl,
          record {
            is_started = s.is_started;
            closing_idle = rw (closing, idle) refl;
            closed_closing = rw c refl;
            due = due_now ∙ s.is_started ∙ rw (closing, c) refl;
            held = s.held;
          },
          closing,
          refl,
          refl,
        )
  ]

  pub IsValid-of_closing : (t : TimerState uv) → IsSound t → is_closing t.handle ≡ true → IsValid t
  IsValid-of_closing t s k = record { sound = s; stopped_closing = ground arith }

  pub stop-open :
      (t : TimerState uv) → t.started ≡ true → t.stopped ≡ false → stop uv t ≡ stop_handle uv t t
  unfolding stop
  stop-open t s o =
      check_passes t.started (λ w. (check (not t.stopped) >> stop_handle uv t) w) t s
      ∙ check_passes (not t.stopped) (stop_handle uv t) t (ap not o)

  -- With libuv as documented, the first `Stop` of a valid timer succeeds, also if the timer has
  -- expired and its handle is closing or closed. Afterwards the timer does not run, and its handle
  -- is closing.
  pub stop-ok :
      (t : TimerState uv)
      → IsValid t
      → t.stopped ≡ false
      → (t' : TimerState uv) × (stop uv t ≡ (ok true, t'))
        × IsValid t'
        × (t'.stopped ≡ true)
        × (is_active t'.handle ≡ false)
        × (is_closing t'.handle ≡ true)
  stop-ok t v open_ =
      let h = (timer_stop t.handle).1 in
      let u = record t { stopped = true; handle = h } in
      let s : IsSound u = record {
        is_started = v.sound.is_started;
        closing_idle = rw (laws.stop_idle t.handle) (and_false (is_closing h));
        closed_closing = rw (laws.stop_closing t.handle) v.sound.closed_closing;
        due = rw (laws.stop_closing t.handle, laws.stop_due t.handle) v.sound.due;
        held = v.sound.held;
      } in
      let (t', closes, s', closing, same_stopped, same_type) = close_timer-ok u s in
      (
        t',
        stop-open t v.sound.is_started open_ ∙ rw (laws.stop_ok t.handle, closes) refl,
        IsValid-of_closing t' s' closing,
        same_stopped,
        idle_of_closing (is_closing t'.handle) (is_active t'.handle) s'.closing_idle closing,
        closing,
      )

  -- A second one aborts the process.
  pub stop-again :
      (t : TimerState uv) → t.started ≡ true → t.stopped ≡ true → stop uv t ≡ (fatal, t)
  unfolding stop
  stop-again t s e = rw (s, e) refl

  -- With libuv as documented, the timer's callback, if the user's part of it returns and keeps the
  -- timer valid itself, leaves it valid; and a timer of type `ONE_TIME` is closing afterwards and
  -- does not run again.
  pub uv_timer_callback-ok :
      (callback : Action (TimerState uv) (Unit {0})) (t u : TimerState uv)
      → callback t ≡ (ok tt, u)
      → IsValid u
      → (t' : TimerState uv) × (uv_timer_callback uv callback t ≡ (ok tt, t'))
        × IsValid t'
        × ((is_one_time u.type && not (is_closing t'.handle)) ≡ false)
        × ((is_one_time u.type && is_active t'.handle) ≡ false)
  unfolding uv_timer_callback
  uv_timer_callback-ok callback t u run v = elim (Bool-cases (is_one_time u.type)) [
    | inl once ↦
        let (t', closes, s', closing, same_stopped, same_type) = close_timer-ok u v.sound in
        (
          t',
          rw (run, once, closes) refl,
          IsValid-of_closing t' s' closing,
          rw (once, closing) refl,
          rw once (
              idle_of_closing (is_closing t'.handle) (is_active t'.handle) s'.closing_idle closing),
        )
    | inr again ↦ (u, rw (run, again) refl, v, rw again refl, rw again refl)
  ]

  -- A running timer that expires is valid when its callback begins.
  pub expire-IsValid :
      (t : TimerState uv)
      → IsValid t
      → is_active t.handle ≡ true
      → IsValid (record t { handle = expire t.handle })
  expire-IsValid t v active =
      let k : is_closing t.handle ≡ false = ground (arith, v.sound.closing_idle) in
      record {
        sound = record {
          is_started = v.sound.is_started;
          closing_idle = rw (laws.expire_closing t.handle, k) refl;
          closed_closing = rw (laws.expire_closing t.handle) v.sound.closed_closing;
          due = rw (laws.expire_closing t.handle, laws.expire_due t.handle) v.sound.due;
          held = v.sound.held;
        };
        stopped_closing = rw (laws.expire_closing t.handle) v.stopped_closing;
      }

  -- With libuv as documented, the close callback of a valid timer leaves it valid and lets it go:
  -- the timer held itself until now and does no longer, and no close callback is due any more.
  pub uv_close_callback-ok :
      (t : TimerState uv)
      → IsValid t
      → close_due t.handle ≡ true
      → (t' : TimerState uv) × (uv_close_callback uv (record t { handle = finish_close t.handle })
          ≡ (ok tt, t'))
        × IsValid t'
        × (t.self_held ≡ true)
        × (t'.self_held ≡ false)
        × (close_due t'.handle ≡ false)
  unfolding uv_close_callback
  uv_close_callback-ok t v due_now =
      let due_eq : (is_closing t.handle && not t.closed) ≡ true = sym v.sound.due ∙ due_now in
      let (k, c) = closing_not_closed (is_closing t.handle) t.closed due_eq in
      (
        record t { self_held = false; closed = true; handle = finish_close t.handle },
        refl,
        record {
          sound = record {
            is_started = v.sound.is_started;
            closing_idle =
                rw (laws.finish_closing t.handle, laws.finish_idle t.handle) v.sound.closing_idle;
            closed_closing = rw (laws.finish_closing t.handle, k) refl;
            due = laws.finish_due t.handle ∙ sym (and_false (is_closing (finish_close t.handle)));
            held = refl;
          };
          stopped_closing = rw (laws.finish_closing t.handle) v.stopped_closing;
        },
        v.sound.held ∙ ap not c,
        refl,
        laws.finish_due t.handle,
      )
