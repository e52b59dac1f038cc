-- ===== src/Event/Timer/Ends.antt =====
-- The steps in the life of a `UvTimer` (dk_pull/event/timer/uv_timer.cc), counted.
use dk_pull.Base.{
  ℕ, suc, ◌+◌, ◌≤◌, ◌<◌, ◌≡◌, refl, ◌∙◌, ap, Bool, true, false, not, ◌||◌, arith, ◌==◌, ==-true,
}
use dk_pull.Base.Action.{Action}
use dk_pull.Event.Uv.{Uv, IsUv}
use dk_pull.Event.Timer.{is_one_time, TimerState}
use dk_pull.Event.Timer.Runs.{Step, stops, expires, closes, callback_ran}
use dk_pull.Event.Timer.Life.{closing, active, IsTame, IsLive, stop-moves, or_true}
use dk_pull.Event.Timer.Moves.{open_of_active, expired, expires-once, closes-IsLive, Step-IsLive}

-- What is still to come, where `b` says whether it has come.
abbrev pub left : Bool → ℕ
left true = 0
left false = 1

module _ (uv : Uv) (laws : IsUv uv) where
  open uv use {Handle, expire, close_due, finish_close}

  -- How often a step calls the callback.
  abbrev pub fires :
      {callback : Action (TimerState uv) (Unit {0})} {t u : TimerState uv}
      → Step uv laws callback t u
      → ℕ
  fires (stops e) = 0
  fires (expires act e) = 1
  fires (closes due e) = 0

  -- What is still to come for a timer that runs once: a stop, the close of its handle, and the call
  -- that says so.
  abbrev pub rank : TimerState uv → ℕ
  rank t = left t.stopped + left (closing uv laws t) + left t.closed

  left-most : (b : Bool) → left b ≤ 1
  left-most true = omega arith
  left-most false = omega arith

  pub rank-most : (t : TimerState uv) → rank t ≤ 3
  rank-most t =
      omega (arith, left-most t.stopped, left-most (closing uv laws t), left-most t.closed)

  -- A step of a one-time timer that calls its callback `f` times.
  pub record Advances (t : TimerState uv) (f : ℕ) (u : TimerState uv) : Type 0 where
    pub nearer : rank u < rank t
    pub spent : f + left (closing uv laws u) ≤ left (closing uv laws t)
    pub counted : (u.stopped || (f + left (closing uv laws u) == left (closing uv laws t))) ≡ true
    pub stays : (not t.stopped || u.stopped) ≡ true

  left_le : (b c : Bool) → (not b || c) ≡ true → left c ≤ left b
  left_le false false e = omega arith
  left_le false true e = omega arith
  left_le true true e = omega arith
  left_le true false e = absurd (cc)

  rank-expires : {a b : ℕ} (c : ℕ) → a ≤ b → (a + 0 + c) < (b + 1 + c)
  rank-expires c h = omega arith

  implied : (b c : Bool) → c ≡ b → (not b || c) ≡ true
  implied b c e = ground arith

  pub Step-Advances :
      (callback : Action (TimerState uv) (Unit {0})) (t u : TimerState uv)
      → IsTame uv laws callback
      → (s : Step uv laws callback t u) → IsLive uv laws t
      → is_one_time t.type ≡ true
      → Advances t (fires s) u
  Step-Advances callback t u tame (stops e) l once =
      let (o, types, ends, marks, k) = stop-moves uv laws t u l.valid e in
      record {
        nearer = rw (o, ends, marks, k) (omega arith);
        spent = rw k (omega arith);
        counted = rw marks refl;
        stays = or_true uv laws (not t.stopped) u.stopped marks;
      }
  Step-Advances callback t u tame (expires act e) l once =
      let (one, w, ran, rest) = callback_ran uv laws callback (expired uv laws t) u e in
      let (l', types, k, ends, marks) = expires-once uv laws callback t w u tame l act once ran e in
      let k0 : closing uv laws t ≡ false =
        open_of_active uv laws (closing uv laws t) (active uv laws t) l.valid.sound.closing_idle
          act in
      record {
        nearer =
            rw (k, k0, ends) (rank-expires (left t.closed) (left_le t.stopped u.stopped marks));
        spent = rw (k, k0) (omega arith);
        counted = rw (k, k0) (or_true uv laws u.stopped true refl);
        stays = marks;
      }
  Step-Advances callback t u tame (closes due e) l once =
      let (l', types, c, c', marks, k, k') = closes-IsLive uv laws callback t u l due e in
      record {
        nearer = rw (c, c', marks, k, k') (omega arith);
        spent = rw (k, k') (omega arith);
        counted = rw (k, k') (or_true uv laws u.stopped true refl);
        stays = implied t.stopped u.stopped marks;
      }

  -- `Life t fired steps u`: the timer went from `t` to `u` in so many steps, and its callback was
  -- called so many times.
  pub data Life (callback : Action (TimerState uv) (Unit {0})) (t : TimerState uv)
      : ℕ → ℕ → TimerState uv → Type 0 where
    begins : Life callback t 0 0 t
    goes_on :
        {fired steps : ℕ} {u v : TimerState uv}
        → Life callback t fired steps u
        → (s : Step uv laws callback u v) → Life callback t (fired + fires s) (suc steps) v

  pub Life-IsLive :
      (callback : Action (TimerState uv) (Unit {0})) {t u : TimerState uv} {fired steps : ℕ}
      → IsTame uv laws callback
      → IsLive uv laws t
      → Life callback t fired steps u
      → IsLive uv laws u × (u.type ≡ t.type)
  Life-IsLive callback tame l begins = (l, refl)
  Life-IsLive callback tame l (goes_on {u = w} {v = u} r s) =
      let (l', types) = Life-IsLive callback tame l r in
      let (l'', types') = Step-IsLive uv laws callback w u tame s l' in (l'', types' ∙ types)

  -- What a one-time timer has used up on its way from `t` to `u`.
  pub record Spends (t : TimerState uv) (fired steps : ℕ) (u : TimerState uv) : Type 0 where
    pub ranks : steps + rank u ≤ rank t
    pub calls : fired + left (closing uv laws u) ≤ left (closing uv laws t)
    pub called :
        (u.stopped || (fired + left (closing uv laws u) == left (closing uv laws t))) ≡ true

  called-more :
      (s s' : Bool) (f g a b c : ℕ)
      → (s || (f + b == a)) ≡ true
      → (s' || (g + c == b)) ≡ true
      → (not s || s') ≡ true
      → (s' || (f + g + c == a)) ≡ true
  called-more s s' f g a b c h i j = ground arith

  pub Life-Spends :
      (callback : Action (TimerState uv) (Unit {0})) {t u : TimerState uv} {fired steps : ℕ}
      → IsTame uv laws callback
      → IsLive uv laws t
      → is_one_time t.type ≡ true
      → Life callback t fired steps u
      → Spends t fired steps u
  Life-Spends callback {t = t} tame l once begins = record {
    ranks = omega arith;
    calls = omega arith;
    called = or_true uv laws t.stopped _ (==-true _ _ (omega arith));
  }
  Life-Spends callback {t = t} tame l once (goes_on {fired = f} {u = w} {v = u} r s) =
      let before = Life-Spends callback tame l once r in
      let (l', types) = Life-IsLive callback tame l r in
      let step = Step-Advances callback w u tame s l' (ap is_one_time types ∙ once) in
      record {
        ranks = omega (arith, before.ranks, step.nearer);
        calls = omega (arith, before.calls, step.spent);
        called =
            called-more w.stopped u.stopped f (fires s) _ _ _ before.called step.counted step.stays;
      }
