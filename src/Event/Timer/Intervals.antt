-- ===== src/Event/Timer/Intervals.antt =====
-- The life of a repeated `UvTimer` (dk_pull/event/timer/uv_timer.cc), and of any timer behind a stop.
use dk_pull.Base.{
  ℕ, zero, suc, ◌+◌, ◌≤◌, ◌≡◌, refl, ◌∙◌, ap, Bool, true, false, not, ◌&&◌, ◌||◌, ◌⊎◌, inl, inr,
  arith, Bool-cases,
}
use dk_pull.Base.Action.{Action, ok}
use dk_pull.Event.Uv.{Uv, IsUv}
use dk_pull.Event.Timer.{Options, is_one_time, repeated, fresh, create, TimerState}
use dk_pull.Event.Timer.Runs.{Step, stops, expires, closes}
use dk_pull.Event.Timer.Life.{closing, active, IsTame, IsLive, create-IsLive, stop-moves}
use dk_pull.Event.Timer.Moves.{closes-IsLive}
use dk_pull.Event.Timer.Ends.{left, Life, begins, goes_on, fires, Life-IsLive}
use dk_pull.Event.Timer.Closes.{Returns, expire-Returns}

module _ (uv : Uv) (laws : IsUv uv) where
  open uv use {Handle}

  runs_on :
      (one k s a : Bool)
      → one ≡ false
      → (one || (not k || s)) ≡ true
      → (k || a) ≡ true
      → s ≡ false
      → a ≡ true
  runs_on one k s a e w r o = ground arith

  -- From any state in its life: so many calls in a row, if nothing stops it.
  fires-next :
      (callback : Action (TimerState uv) (Unit {0})) (n : ℕ) (t : TimerState uv)
      → IsTame uv laws callback
      → Returns uv laws callback
      → IsLive uv laws t
      → is_one_time t.type ≡ false
      → (f : ℕ) × (f ≤ n)
        × (u : TimerState uv) × Life uv laws callback t f f u
        × ((f ≡ n) ⊎ (u.stopped ≡ true))
  fires-next callback zero t tame returns l again = (0, omega arith, t, begins, inl refl)
  fires-next callback (suc n) t tame returns l again =
      let (f, le, u, life, how) = fires-next callback n t tame returns l again in
      let (l', type) = Life-IsLive uv laws callback tame l life in
      elim how [
        | inr stopped ↦ (f, omega arith, u, life, inr stopped)
        | inl all ↦ elim (Bool-cases u.stopped) [
          | inl stopped ↦ (f, omega arith, u, life, inr stopped)
          | inr open_ ↦
              let act =
                runs_on (is_one_time u.type) (closing uv laws u) u.stopped (active uv laws u)
                  (ap is_one_time type ∙ again) l'.wanted l'.running open_ in
              let (v, run) = expire-Returns uv laws callback u tame returns l' act in
              let one : f + 1 ≡ suc f = omega arith in
              (
                suc f,
                omega arith,
                v,
                (rw one at (goes_on life (expires act run))),
                inl (ap suc all),
              )
        ]
      ]

  closing_of_stopped : (s k : Bool) → (s && not k) ≡ false → s ≡ true → k ≡ true
  closing_of_stopped s k h e = ground arith

  neither : (k a : Bool) → (k && a) ≡ false → k ≡ true → a ≡ true → ⊥
  neither k a h e i = absurd (cc)

  -- All that is left for a stopped timer is that its handle is closed.
  silent-Step :
      (callback : Action (TimerState uv) (Unit {0})) (t u : TimerState uv)
      → (s : Step uv laws callback t u) → IsLive uv laws t
      → t.stopped ≡ true
      → (fires uv laws s ≡ 0) × (u.stopped ≡ true) × (suc (left u.closed) ≤ left t.closed)
  silent-Step callback t u (stops e) l stopped =
      let (o, types, ends, marks, k) = stop-moves uv laws t u l.valid e in absurd (cc)
  silent-Step callback t u (expires act e) l stopped = absurd (
      neither (closing uv laws t) (active uv laws t) l.valid.sound.closing_idle
        (closing_of_stopped t.stopped (closing uv laws t) l.valid.stopped_closing stopped) act)
  silent-Step callback t u (closes due e) l stopped =
      let (l', types, c, c', marks, k, k') = closes-IsLive uv laws callback t u l due e in
      (refl, marks ∙ stopped, rw (c, c') (omega arith))

  silent :
      (callback : Action (TimerState uv) (Unit {0})) {t u : TimerState uv} {f n : ℕ}
      → IsTame uv laws callback
      → IsLive uv laws t
      → t.stopped ≡ true
      → Life uv laws callback t f n u
      → (f ≡ 0) × (u.stopped ≡ true) × (n + left u.closed ≤ left t.closed)
  silent callback tame l stopped begins = (refl, stopped, omega arith)
  silent callback tame l stopped (goes_on {fired = f} {u = w} {v = v} r s) =
      let (none, still, few) = silent callback tame l stopped r in
      let (l', type) = Life-IsLive uv laws callback tame l r in
      let (none', still', fewer) = silent-Step callback w v s l' still in
      (omega (arith, none, none'), still', omega (arith, few, fewer))

  left-le : (b : Bool) → left b ≤ 1
  left-le true = omega arith
  left-le false = omega arith

  -- With libuv as documented, a repeated timer that was created with a callback, which returns and
  -- does no more to the timer than a stop may: for any number, its callback can be called that many
  -- times in a row, with nothing else in between, or fewer times, after which the timer is stopped.
  pub repeated-fires :
      (options : Options) (handle : Handle) (callback : Action (TimerState uv) (Unit {0}))
      (t : TimerState uv) (n : ℕ)
      → options.has_callback ≡ true
      → options.type ≡ repeated
      → IsTame uv laws callback
      → Returns uv laws callback
      → create uv (fresh uv options handle) ≡ (ok tt, t)
      → (f : ℕ) × (f ≤ n)
        × (u : TimerState uv) × Life uv laws callback t f f u
        × ((f ≡ n) ⊎ (u.stopped ≡ true))
  repeated-fires options handle callback t n cb again tame returns made =
      let (l, type, s, k, c) = create-IsLive uv laws options handle t cb made in
      fires-next callback n t tame returns l (ap is_one_time (type ∙ again))

  -- With libuv as documented, a timer of either type that was created with a callback, which does
  -- no more to the timer than a stop may: once it is stopped, from outside or by its callback, its
  -- callback is never called again, it stays stopped, and no more than one thing happens to it.
  pub stopped-silent :
      (options : Options) (handle : Handle) (callback : Action (TimerState uv) (Unit {0}))
      (t u v : TimerState uv) (fired steps f n : ℕ)
      → options.has_callback ≡ true
      → IsTame uv laws callback
      → create uv (fresh uv options handle) ≡ (ok tt, t)
      → Life uv laws callback t fired steps u
      → u.stopped ≡ true
      → Life uv laws callback u f n v
      → (f ≡ 0) × (v.stopped ≡ true) × (n ≤ 1)
  stopped-silent options handle callback t u v fired steps f n cb tame made before stopped after =
      let (l, type, s, k, c) = create-IsLive uv laws options handle t cb made in
      let (l', type') = Life-IsLive uv laws callback tame l before in
      let (none, still, few) = silent callback tame l' stopped after in
      (none, still, omega (arith, few, left-le u.closed))
