-- ===== src/Event/Timer/Life.antt =====
-- The life of a `UvTimer` (dk_pull/event/timer/uv_timer.cc): the states in which it rests, and what
-- its callback may do to it.
use dk_pull.Base.{
  ◌≡◌, refl, sym, ◌∙◌, ap, Bool, true, false, not, ◌||◌, inl, inr, arith, Bool-cases, Option-cases,
  ◌==◌, ==-true,
}
use dk_pull.Base.Action.{Action, ok, skip, and_then-ok, ◌>>=◌}
use dk_pull.Event.Uv.{Uv, IsUv}
use dk_pull.Event.Timer.{Options, is_one_time, fresh, create, close_timer, stop, TimerState}
use dk_pull.Event.Timer.Lifetime.{IsValid, stop-open, stop-ok, stop-again}
use dk_pull.Event.Timer.Runs.{repeat_for, same_end, create-ok, construct-ok, start-ok}

module _ (uv : Uv) (laws : IsUv uv) where
  open uv use {
    Handle, timer_init, timer_start, timer_stop, is_closing, close, is_active, timeout_of,
    repeat_of, expire, close_due, finish_close,
  }

  abbrev pub closing : TimerState uv → Bool
  closing t = is_closing t.handle

  abbrev pub active : TimerState uv → Bool
  active t = is_active t.handle

  -- What the user's part of a callback may do to its timer: nothing, or stop it.
  pub record Respects (t u : TimerState uv) : Type 0 where
    pub same_type : u.type ≡ t.type
    pub same_closed : u.closed ≡ t.closed
    pub stays_stopped : (not t.stopped || u.stopped) ≡ true
    pub stays_closing : (not (closing t) || closing u) ≡ true
    pub stays_running : (not (active t) || (closing u || active u)) ≡ true
    pub same_repeat : (closing u || (repeat_of u.handle == repeat_of t.handle)) ≡ true
    pub closes_by_stop : (not (closing u) || (closing t || u.stopped)) ≡ true

  abbrev pub IsTame : Action (TimerState uv) (Unit {0}) → Type 0
  IsTame callback =
      (t u : TimerState uv)
      → IsValid uv laws t
      → callback t ≡ (ok tt, u)
      → IsValid uv laws u × Respects t u

  implies_self : (b : Bool) → (not b || b) ≡ true
  implies_self b = ground arith

  or_self : (b c : Bool) → (not b || (c || b)) ≡ true
  or_self b c = ground arith

  self_or : (b c : Bool) → (not b || (b || c)) ≡ true
  self_or b c = ground arith

  pub or_true : (b c : Bool) → c ≡ true → (b || c) ≡ true
  or_true b c e = ground arith

  pub skip-IsTame : IsTame skip
  skip-IsTame t u v e =
      let same : t ≡ u = cc in
      rw (← same) (
        v,
        record {
          same_type = refl;
          same_closed = refl;
          stays_stopped = implies_self t.stopped;
          stays_closing = implies_self (closing t);
          stays_running = or_self (active t) (closing t);
          same_repeat =
              or_true (closing t) _ (==-true (repeat_of t.handle) (repeat_of t.handle) refl);
          closes_by_stop = self_or (closing t) t.stopped;
        },
      )

  -- `close` changes nothing but the handle.
  pub close_timer-same :
      (t u : TimerState uv)
      → close_timer uv t ≡ (ok tt, u)
      → (u.type ≡ t.type) × (u.closed ≡ t.closed) × (u.stopped ≡ t.stopped)
  unfolding close_timer
  close_timer-same t u e = elim (Bool-cases (t.closed || is_closing t.handle)) [
    | inl done ↦ let same : t ≡ u = (cc (rw done at e)) in rw (← same) (refl, refl, refl)
    | inr open_ ↦ elim (Option-cases (close t.started t.handle)) [
      | inl failed ↦ absurd (cc (rw (open_, failed) at e))
      | inr (h, closed) ↦
          let same : record t { handle = h } ≡ u = (cc (rw (open_, closed) at e)) in
          rw (← same) (refl, refl, refl)
    ]
  ]

  -- A stop that returns.
  pub stop-moves :
      (t u : TimerState uv)
      → IsValid uv laws t
      → stop uv t ≡ (ok true, u)
      → (t.stopped ≡ false)
        × (u.type ≡ t.type)
        × (u.closed ≡ t.closed)
        × (u.stopped ≡ true)
        × (closing u ≡ true)
  stop-moves t u v e = elim (Bool-cases t.stopped) [
    | inl again ↦ absurd (cc (stop-again uv laws t v.sound.is_started again))
    | inr open_ ↦
        let (u', run, v', stopped, idle, closed) = stop-ok uv laws t v open_ in
        let same = same_end uv laws (stop uv t) true true u u' e run in
        let t1 = record t { stopped = true; handle = (timer_stop t.handle).1 } in
        let (one, w, ran, rest) =
          and_then-ok (close_timer uv t1) (λ _ w. (ok ((timer_stop t.handle).0 == 0), w))
            (sym (stop-open uv laws t v.sound.is_started open_) ∙ e) in
        let last : w ≡ u = cc in
        let (types, ends, marks) = close_timer-same t1 w ran in
        (
          open_,
          ap (λ x. x.type) (sym last) ∙ types,
          ap (λ x. x.closed) (sym last) ∙ ends,
          ap (λ x. x.stopped) same ∙ stopped,
          ap closing same ∙ closed,
        )
  ]

  -- What holds of a timer that was stopped just now.
  Respects-of_stop :
      (t u : TimerState uv)
      → u.type ≡ t.type
      → u.closed ≡ t.closed
      → u.stopped ≡ true
      → closing u ≡ true
      → Respects t u
  Respects-of_stop t u types ends marks k = record {
    same_type = types;
    same_closed = ends;
    stays_stopped = or_true (not t.stopped) u.stopped marks;
    stays_closing = or_true (not (closing t)) (closing u) k;
    stays_running = rw k (or_true (not (active t)) true refl);
    same_repeat = rw k refl;
    closes_by_stop =
        rw marks (or_true (not (closing u)) (closing t || true) (or_true (closing t) true refl));
  }

  pub stop-IsTame : IsTame (do rc ← stop uv; skip)
  stop-IsTame t u v e =
      let (rc, w, ran, rest) = and_then-ok (stop uv t) (λ _. skip) e in
      let last : w ≡ u = cc in
      elim (Bool-cases t.stopped) [
        | inl again ↦ absurd (cc (stop-again uv laws t v.sound.is_started again))
        | inr open_ ↦
            let (u', run, v', stopped, idle, k) = stop-ok uv laws t v open_ in
            let same : u' ≡ u = sym (same_end uv laws (stop uv t) rc true w u' ran run) ∙ last in
            let (o, types, ends, marks, k') = stop-moves t u' v run in
            rw (← same) (v', Respects-of_stop t u' types ends marks k')
      ]

  -- A timer at rest, between the things that happen to it: its handle is closing or runs, and a
  -- repeated one will run again unless it has been stopped.
  pub record IsLive (t : TimerState uv) : Type 0 where
    pub valid : IsValid uv laws t
    pub running : (closing t || active t) ≡ true
    pub again : (closing t || (is_one_time t.type || (repeat_of t.handle == 1))) ≡ true
    pub wanted : (is_one_time t.type || (not (closing t) || t.stopped)) ≡ true

  pub create-IsLive :
      (options : Options) (handle : Handle) (t : TimerState uv)
      → options.has_callback ≡ true
      → create uv (fresh uv options handle) ≡ (ok tt, t)
      → IsLive t
        × (t.type ≡ options.type)
        × (t.stopped ≡ false)
        × (closing t ≡ false)
        × (t.closed ≡ false)
  unfolding create
  create-IsLive options handle t cb made =
      let h = (timer_init handle).1 in
      let k : is_closing h ≡ false = laws.init_open handle in
      let r = repeat_for uv laws options in
      let h' = (timer_start options.delay r h).1 in
      let t0 = record (fresh uv options h') { started = true; self_held = true } in
      let run : create uv (fresh uv options handle) ≡ (ok tt, t0) =
        rw (construct-ok uv laws options handle cb, start-ok uv laws options h k) refl in
      let (t1, run1, v, stopped, held, act, timeout, repeat) =
        create-ok uv laws options handle cb in
      let same1 = same_end uv laws (create uv (fresh uv options handle)) tt tt t1 t0 run1 run in
      let same = same_end uv laws (create uv (fresh uv options handle)) tt tt t0 t run made in
      let k' : is_closing h' ≡ false = laws.start_closing options.delay r h ∙ k in
      rw (← same) (
        record {
          valid = rw (← same1) v;
          running = or_true (is_closing h') (is_active h') (laws.start_active options.delay r h k);
          again =
              rw (laws.start_repeat options.delay r h k)
                (or_true (is_closing h') _ (one_or_repeat options));
          wanted = or_true (is_one_time options.type) _ (rw k' refl);
        },
        refl,
        refl,
        k',
        refl,
      )
    where
      one_or_repeat :
          (options : Options)
          → (is_one_time options.type || (repeat_for uv laws options == 1)) ≡ true
      one_or_repeat options = elim (Bool-cases (is_one_time options.type)) [
        | inl e ↦ rw e refl
        | inr e ↦ rw e refl
      ]
