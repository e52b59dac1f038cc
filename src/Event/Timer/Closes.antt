-- ===== src/Event/Timer/Closes.antt =====
-- How the life of a `UvTimer` (dk_pull/event/timer/uv_timer.cc) goes on, and how it ends.
use dk_pull.Base.{
  ℕ, zero, suc, ◌+◌, ◌≤◌, ◌≡◌, refl, ◌∙◌, ap, Bool, true, false, not, ◌&&◌, ◌||◌, inl, inr, arith,
  Bool-cases, ◌==◌,
}
use dk_pull.Base.Action.{Action, ok}
use dk_pull.Event.Uv.{Uv, IsUv}
use dk_pull.Event.Timer.{
  Options, is_one_time, fresh, create, uv_timer_callback, TimerState, one_time,
}
use dk_pull.Event.Timer.Lifetime.{
  IsValid, expire-IsValid, uv_timer_callback-ok, uv_close_callback-ok,
}
use dk_pull.Event.Timer.Runs.{Step, expires, closes}
use dk_pull.Event.Timer.Life.{closing, active, IsTame, IsLive, create-IsLive}
use dk_pull.Event.Timer.Moves.{open_of_active, expired}
use dk_pull.Event.Timer.Ends.{
  left, rank, Life, begins, goes_on, fires, Life-IsLive, Life-Spends, Step-Advances,
}

closed_of_left : (b : Bool) → left b ≤ 0 → b ≡ true
closed_of_left true h = refl
closed_of_left false h = absurd (omega (arith, h))

module _ (uv : Uv) (laws : IsUv uv) where
  open uv use {Handle, expire, close_due, finish_close}

  -- libuv does what it owes a timer that is not closed: it runs the callback, which returns, or it
  -- calls the close callback.
  abbrev pub Returns : Action (TimerState uv) (Unit {0}) → Type 0
  Returns callback =
      (t : TimerState uv)
      → IsValid uv laws t
      → t.stopped ≡ false
      → (u : TimerState uv) × (callback t ≡ (ok tt, u))

  close-Step :
      (callback : Action (TimerState uv) (Unit {0})) (t : TimerState uv)
      → IsLive uv laws t
      → close_due t.handle ≡ true
      → (u : TimerState uv) × Step uv laws callback t u
  close-Step callback t l due =
      let (u, run, v, held, gone, idle) = uv_close_callback-ok uv laws t l.valid due in
      (u, closes due run)

  open_of_idle : (s k : Bool) → (s && not k) ≡ false → k ≡ false → s ≡ false
  open_of_idle s k h e = ground arith

  -- A timer that runs can expire, with a callback that returns.
  pub expire-Returns :
      (callback : Action (TimerState uv) (Unit {0})) (t : TimerState uv)
      → IsTame uv laws callback
      → Returns callback
      → IsLive uv laws t
      → active uv laws t ≡ true
      → (u : TimerState uv) × (uv_timer_callback uv callback (expired uv laws t) ≡ (ok tt, u))
  expire-Returns callback t tame returns l act =
      let k = open_of_active uv laws _ _ l.valid.sound.closing_idle act in
      let v = expire-IsValid uv laws t l.valid act in
      let (w, ran) = returns (expired uv laws t) v (open_of_idle _ _ l.valid.stopped_closing k) in
      let (v', r) = tame (expired uv laws t) w v ran in
      let (u, run, valid, closed, idle) =
        uv_timer_callback-ok uv laws callback (expired uv laws t) w ran v' in
      (u, run)

  expire-Step :
      (callback : Action (TimerState uv) (Unit {0})) (t : TimerState uv)
      → IsTame uv laws callback
      → Returns callback
      → IsLive uv laws t
      → active uv laws t ≡ true
      → (u : TimerState uv) × Step uv laws callback t u
  expire-Step callback t tame returns l act =
      let (u, run) = expire-Returns callback t tame returns l act in (u, expires act run)

  due_or_closed : (k c d : Bool) → d ≡ (k && not c) → k ≡ true → c ≡ false → d ≡ true
  due_or_closed k c d h e o = ground arith

  some-Step :
      (callback : Action (TimerState uv) (Unit {0})) (t : TimerState uv)
      → IsTame uv laws callback
      → Returns callback
      → IsLive uv laws t
      → t.closed ≡ false
      → (u : TimerState uv) × Step uv laws callback t u
  some-Step callback t tame returns l open_ = elim (Bool-cases (closing uv laws t)) [
    | inl k ↦ close-Step callback t l (due_or_closed _ _ _ l.valid.sound.due k open_)
    | inr k ↦ expire-Step callback t tame returns l (ground (arith, l.running))
  ]

  Life-closes :
      (callback : Action (TimerState uv) (Unit {0})) (fuel : ℕ) {t u : TimerState uv}
      {fired steps : ℕ}
      → IsTame uv laws callback
      → Returns callback
      → IsLive uv laws t
      → is_one_time t.type ≡ true
      → Life uv laws callback t fired steps u
      → rank uv laws u ≤ fuel
      → (f : ℕ) × (n : ℕ) × (v : TimerState uv) × Life uv laws callback t f n v × (v.closed ≡ true)
  Life-closes callback zero {u = u} tame returns l once r h =
      (_, _, u, r, closed_of_left u.closed (omega (arith, h)))
  Life-closes callback (suc fuel) {t = t} {u = u} tame returns l once r h =
      elim (Bool-cases u.closed) [
        | inl done ↦ (_, _, u, r, done)
        | inr open_ ↦
            let (l', types) = Life-IsLive uv laws callback tame l r in
            let (v, s) = some-Step callback u tame returns l' open_ in
            let step = Step-Advances uv laws callback u v tame s l' (ap is_one_time types ∙ once) in
            Life-closes callback fuel tame returns l once (goes_on r s)
              (omega (arith, h, step.nearer))
      ]

  pub Life-then :
      (callback : Action (TimerState uv) (Unit {0})) {t u v : TimerState uv} {f n g m : ℕ}
      → Life uv laws callback t f n u
      → Life uv laws callback u g m v
      → Life uv laws callback t (f + g) (n + m) v
  Life-then callback {f = f} {n = n} r begins =
      let calls : f + 0 ≡ f = omega arith in
      let steps : n + 0 ≡ n = omega arith in rw (calls, steps) r
  Life-then callback {f = f} {n = n} r (goes_on {fired = g} {steps = m} q s) =
      let calls : f + (g + fires uv laws s) ≡ f + g + fires uv laws s = omega arith in
      let steps : n + suc m ≡ suc (n + m) = omega arith in
      rw (calls, steps) (goes_on (Life-then callback r q) s)

  closed_or_due : (k a c d : Bool) → (k || a) ≡ true → d ≡ (k && not c) → (c || (a || d)) ≡ true
  closed_or_due k a c d h e = ground arith

  stopped_or_active :
      (o k s a : Bool) → (k || a) ≡ true → (o || (not k || s)) ≡ true → (o || (s || a)) ≡ true
  stopped_or_active o k s a h e = ground arith

  -- With libuv as documented, a timer that was created with a callback, which does no more to the
  -- timer than a stop may, and whatever has happened to it since: either it is closed, or it runs,
  -- or its close callback is due; and a repeated timer that nobody has stopped runs.
  pub Life-progress :
      (options : Options) (handle : Handle) (callback : Action (TimerState uv) (Unit {0}))
      (t u : TimerState uv) (fired steps : ℕ)
      → options.has_callback ≡ true
      → IsTame uv laws callback
      → create uv (fresh uv options handle) ≡ (ok tt, t)
      → Life uv laws callback t fired steps u
      → ((u.closed || (active uv laws u || close_due u.handle)) ≡ true)
        × ((is_one_time options.type || (u.stopped || active uv laws u)) ≡ true)
  Life-progress options handle callback t u fired steps cb tame made r =
      let (l, type, s, k, c) = create-IsLive uv laws options handle t cb made in
      let (l', type') = Life-IsLive uv laws callback tame l r in
      let types : is_one_time u.type ≡ is_one_time options.type = ap is_one_time (type' ∙ type) in
      (
        closed_or_due (closing uv laws u) (active uv laws u) u.closed _ l'.running
            l'.valid.sound.due,
        stopped_or_active (is_one_time options.type) (closing uv laws u) u.stopped
            (active uv laws u) l'.running (rw types at l'.wanted),
      )

  once_closed :
      (c h k s : Bool) (f : ℕ)
      → h ≡ not c
      → (c && not k) ≡ false
      → (s || (f + left k == 1)) ≡ true
      → (not c || (not h && (s || (f == 1)))) ≡ true
  once_closed false h k s f e d g = refl
  once_closed true h true s f e d g = rw e (ground (arith, g))
  once_closed true h false s f e d g = absurd (cc)

  -- With libuv as documented, a one-time timer that was created with a callback, which does no more
  -- to the timer than a stop may: at most three things happen to it, and its callback is called at
  -- most once. Once it is closed it does not hold itself, and its callback has been called exactly
  -- once unless the timer was stopped.
  pub one_time-ends :
      (options : Options) (handle : Handle) (callback : Action (TimerState uv) (Unit {0}))
      (t u : TimerState uv) (fired steps : ℕ)
      → options.has_callback ≡ true
      → options.type ≡ one_time
      → IsTame uv laws callback
      → create uv (fresh uv options handle) ≡ (ok tt, t)
      → Life uv laws callback t fired steps u
      → (steps ≤ 3)
        × (fired ≤ 1)
        × ((not u.closed || (not u.self_held && (u.stopped || (fired == 1)))) ≡ true)
  one_time-ends options handle callback t u fired steps cb once tame made r =
      let (l, type, s, k, c) = create-IsLive uv laws options handle t cb made in
      let (l', type') = Life-IsLive uv laws callback tame l r in
      let spends = Life-Spends uv laws callback tame l (ap is_one_time (type ∙ once)) r in
      (
        omega (arith, rw (s, k, c) at spends.ranks),
        omega (arith, rw k at spends.calls),
        once_closed u.closed u.self_held (closing uv laws u) u.stopped fired l'.valid.sound.held
            l'.valid.sound.closed_closing (rw k at spends.called),
      )

  called_once :
      {c : Bool} (h s : Bool) (f : ℕ)
      → c ≡ true
      → (not c || (not h && (s || (f == 1)))) ≡ true
      → (s || (f == 1)) ≡ true
  called_once h s f e g = ground arith

  -- With libuv as documented, a one-time timer that was created with a callback, which returns and
  -- does no more to the timer than a stop may, and whatever has happened to it since: it can go on
  -- until it is closed. Then no more than three things have happened to it in all, and its callback
  -- was called exactly once, or the timer was stopped.
  pub one_time-closes :
      (options : Options) (handle : Handle) (callback : Action (TimerState uv) (Unit {0}))
      (t u : TimerState uv) (fired steps : ℕ)
      → options.has_callback ≡ true
      → options.type ≡ one_time
      → IsTame uv laws callback
      → Returns callback
      → create uv (fresh uv options handle) ≡ (ok tt, t)
      → Life uv laws callback t fired steps u
      → (f : ℕ) × (n : ℕ) × (v : TimerState uv) × Life uv laws callback u f n v
        × (v.closed ≡ true)
        × ((v.stopped || (fired + f == 1)) ≡ true)
        × (steps + n ≤ 3)
  one_time-closes options handle callback t u fired steps cb once tame returns made r =
      let (l, type, s, k, c) = create-IsLive uv laws options handle t cb made in
      let (l', type') = Life-IsLive uv laws callback tame l r in
      let one = ap is_one_time (type' ∙ type ∙ once) in
      let (f, n, v, life, closed) =
        Life-closes callback (rank uv laws u) tame returns l' one begins (omega arith) in
      let whole = Life-then callback r life in
      let (few, calls, called) =
        one_time-ends options handle callback t v (fired + f) (steps + n) cb once tame made whole in
      (f, n, v, life, closed, called_once v.self_held v.stopped (fired + f) closed called, few)
