-- ===== src/Event/Timer/Moves.antt =====
-- One step in the life of a `UvTimer` (dk_pull/event/timer/uv_timer.cc).
use dk_pull.Base.{
  ◌≡◌, refl, sym, ◌∙◌, ap, Bool, true, false, not, ◌&&◌, ◌||◌, inl, inr, arith, Bool-cases,
}
use dk_pull.Base.Action.{Action, ok}
use dk_pull.Event.Uv.{Uv, IsUv}
use dk_pull.Event.Timer.{is_one_time, uv_close_callback, uv_timer_callback, TimerState}
use dk_pull.Event.Timer.Lifetime.{
  IsValid, close_timer-ok, IsValid-of_closing, expire-IsValid, uv_close_callback-ok,
}
use dk_pull.Event.Timer.Runs.{
  Step, stops, expires, closes, Keeps, same_end, callback_ran, Step-IsValid,
}
use dk_pull.Event.Timer.Life.{
  closing, active, IsTame, IsLive, stop-moves, close_timer-same, or_true,
}

module _ (uv : Uv) (laws : IsUv uv) where
  open uv use {Handle, is_closing, is_active, repeat_of, expire, close_due, finish_close}

  pub open_of_active : (k a : Bool) → (k && a) ≡ false → a ≡ true → k ≡ false
  open_of_active k a h e = ground arith

  both : (a b : Bool) → (a && not b) ≡ true → (a ≡ true) × (b ≡ false)
  both a b h = (ground arith, ground arith)

  or_between : (a b c : Bool) → (a || c) ≡ true → (a || (b || c)) ≡ true
  or_between a b c h = ground arith

  -- A timer that runs and expires, before its callback.
  abbrev pub expired : TimerState uv → TimerState uv
  expired t = record t { handle = expire t.handle }

  expire-runs :
      (t : TimerState uv)
      → IsLive uv laws t
      → is_one_time t.type ≡ false
      → closing uv laws t ≡ false
      → active uv laws (expired t) ≡ true
  expire-runs t l again k =
      let once : repeat_of t.handle ≡ 1 = ground (arith, l.again) in
      laws.expire_active t.handle ∙ rw once refl

  -- A repeated timer expires.
  expires-again :
      (callback : Action (TimerState uv) (Unit {0})) (t w : TimerState uv)
      → IsTame uv laws callback
      → IsLive uv laws t
      → active uv laws t ≡ true
      → is_one_time t.type ≡ false
      → callback (expired t) ≡ (ok tt, w)
      → IsLive uv laws w
  expires-again callback t w tame l act again ran =
      let k : closing uv laws t ≡ false =
        open_of_active (closing uv laws t) (active uv laws t) l.valid.sound.closing_idle act in
      let (v, resp) = tame (expired t) w (expire-IsValid uv laws t l.valid act) ran in
      let runs = expire-runs t l again k in
      let once : repeat_of t.handle ≡ 1 = ground (arith, l.again) in
      let k' : closing uv laws (expired t) ≡ false = laws.expire_closing t.handle ∙ k in
      let same : repeat_of (expire t.handle) ≡ 1 = laws.expire_repeat t.handle ∙ once in
      record {
        valid = v;
        running = ground (arith, resp.stays_running);
        again = or_between (closing uv laws w) (is_one_time w.type) _ (rw same at resp.same_repeat);
        wanted = or_true uv laws (is_one_time w.type) _ (rw k' at resp.closes_by_stop);
      }

  -- A one-time timer expires.
  pub expires-once :
      (callback : Action (TimerState uv) (Unit {0})) (t w u : TimerState uv)
      → IsTame uv laws callback
      → IsLive uv laws t
      → active uv laws t ≡ true
      → is_one_time t.type ≡ true
      → callback (expired t) ≡ (ok tt, w)
      → uv_timer_callback uv callback (expired t) ≡ (ok tt, u)
      → IsLive uv laws u
        × (u.type ≡ t.type)
        × (closing uv laws u ≡ true)
        × (u.closed ≡ t.closed)
        × ((not t.stopped || u.stopped) ≡ true)
  unfolding uv_timer_callback
  expires-once callback t w u tame l act once ran e =
      let (v, resp) = tame (expired t) w (expire-IsValid uv laws t l.valid act) ran in
      let once' : is_one_time w.type ≡ true = ap is_one_time resp.same_type ∙ once in
      let (u', closes', s', k, marks, types) = close_timer-ok uv laws w v.sound in
      let run : uv_timer_callback uv callback (expired t) ≡ (ok tt, u') =
        rw (ran, once', closes') refl in
      let same : u' ≡ u =
        same_end uv laws (uv_timer_callback uv callback (expired t)) tt tt u' u run e in
      let (types', ends', marks') = close_timer-same uv laws w u' closes' in
      rw (← same) (
        record {
          valid = IsValid-of_closing uv laws u' s' k;
          running = rw k refl;
          again = rw k refl;
          wanted = rw (types', once') refl;
        },
        types' ∙ resp.same_type,
        k,
        ends' ∙ resp.same_closed,
        ap (λ b. not t.stopped || b) marks' ∙ resp.stays_stopped,
      )

  repeats-same :
      (callback : Action (TimerState uv) (Unit {0})) (t w u : TimerState uv)
      → callback t ≡ (ok tt, w)
      → is_one_time w.type ≡ false
      → uv_timer_callback uv callback t ≡ (ok tt, u)
      → w ≡ u
  unfolding uv_timer_callback
  repeats-same callback t w u ran again e =
      let run : uv_timer_callback uv callback t ≡ (ok tt, w) = rw (ran, again) refl in
      same_end uv laws (uv_timer_callback uv callback t) tt tt w u run e

  -- The handle of a timer is closed.
  pub closes-IsLive :
      (callback : Action (TimerState uv) (Unit {0})) (t u : TimerState uv)
      → IsLive uv laws t
      → close_due t.handle ≡ true
      → uv_close_callback uv (record t { handle = finish_close t.handle }) ≡ (ok tt, u)
      → IsLive uv laws u
        × (u.type ≡ t.type)
        × (t.closed ≡ false)
        × (u.closed ≡ true)
        × (u.stopped ≡ t.stopped)
        × (closing uv laws t ≡ true)
        × (closing uv laws u ≡ true)
  unfolding uv_close_callback
  closes-IsLive callback t u l due e =
      let done = record t { self_held = false; closed = true; handle = finish_close t.handle } in
      let run : uv_close_callback uv (record t { handle = finish_close t.handle }) ≡ (ok tt, done) =
        refl in
      let (u', run', v', held, gone, none_due) = uv_close_callback-ok uv laws t l.valid due in
      let call = uv_close_callback uv (record t { handle = finish_close t.handle }) in
      let same' = same_end uv laws call tt tt u' done run' run in
      let same = same_end uv laws call tt tt done u run e in
      let due_eq : (closing uv laws t && not t.closed) ≡ true = sym l.valid.sound.due ∙ due in
      let (k, c) = both (closing uv laws t) t.closed due_eq in
      let k' : is_closing (finish_close t.handle) ≡ true = laws.finish_closing t.handle ∙ k in
      rw (← same) (
        record {
          valid = rw (← same') v';
          running = rw k' refl;
          again = rw k' refl;
          wanted = rw k' (rw k at l.wanted);
        },
        refl,
        c,
        refl,
        refl,
        k,
        k',
      )

  keeps :
      (callback : Action (TimerState uv) (Unit {0}))
      → IsTame uv laws callback
      → Keeps uv laws callback
  keeps callback tame t u v e = (tame t u v e).0

  closing-IsLive :
      (t : TimerState uv)
      → IsValid uv laws t
      → closing uv laws t ≡ true
      → t.stopped ≡ true
      → IsLive uv laws t
  closing-IsLive t v k marks = record {
    valid = v;
    running = rw k refl;
    again = rw k refl;
    wanted = rw marks (or_true uv laws (is_one_time t.type) _ (or_true uv laws _ true refl));
  }

  -- Any step leaves a timer at rest again.
  pub Step-IsLive :
      (callback : Action (TimerState uv) (Unit {0})) (t u : TimerState uv)
      → IsTame uv laws callback
      → Step uv laws callback t u
      → IsLive uv laws t
      → IsLive uv laws u × (u.type ≡ t.type)
  Step-IsLive callback t u tame (stops e) l =
      let (o, types, ends, marks, k) = stop-moves uv laws t u l.valid e in
      let v = Step-IsValid uv laws callback t u (keeps callback tame) (stops e) l.valid in
      (closing-IsLive u v k marks, types)
  Step-IsLive callback t u tame (expires act e) l =
      let (one, w, ran, rest) = callback_ran uv laws callback (expired t) u e in
      elim (Bool-cases (is_one_time t.type)) [
        | inl once ↦
            let (l', types, k, ends, marks) = expires-once callback t w u tame l act once ran e in
            (l', types)
        | inr again ↦
            let types : w.type ≡ t.type =
              (tame (expired t) w (expire-IsValid uv laws t l.valid act) ran).1.same_type in
            let same = repeats-same callback (expired t) w u ran (ap is_one_time types ∙ again) e in
            rw (← same) (expires-again callback t w tame l act again ran, types)
      ]
  Step-IsLive callback t u tame (closes due e) l =
      let (l', types, c, c', marks, k, k') = closes-IsLive callback t u l due e in (l', types)
