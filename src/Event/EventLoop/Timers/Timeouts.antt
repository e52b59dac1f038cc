-- ===== src/Event/EventLoop/Timers/Timeouts.antt =====
-- Timeouts of a client of `UvEventLoop` (dk_pull/event/event_loop).
use dk_pull.Base.{
  ℕ, suc, length, ◌+◌, ◌≤◌, ◌≡◌, refl, ◌∙◌, ap, Bool, true, false, not, ◌&&◌, ◌||◌, ◌==◌, List, [],
  ◌∷◌, arith,
}
use dk_pull.Base.Action.{ok}
use dk_pull.Event.Uv.{Uv, IsUv}
use dk_pull.Event.Timer.{Options, TimerState, is_one_time, one_time, fresh, create}
use dk_pull.Event.Timer.Life.{IsTame, IsLive, active, closing, create-IsLive}
use dk_pull.Event.Timer.Ends.{left, Life, Life-IsLive, Life-Spends}
use dk_pull.Event.Timer.Closes.{Returns, Life-then, Life-progress, one_time-ends}
use dk_pull.Event.EventLoop.Timers.{Slot, Callback, owed, any_owed, any_open}
use dk_pull.Event.EventLoop.Timers.Lives.{
  AllReady, no_more, one_more, AllOnce, no_once, more_once, Lives, no_lives, more_lives,
}

module _ (uv : Uv) (laws : IsUv uv) (memory : uv.Handle) where
  -- A timeout that a client sets: after how many milliseconds, what is called then, and whether it
  -- is stopped at once.
  pub record Timeout : Type 0 where
    pub ms : ℕ
    pub callback : Callback uv
    pub stops_it : Bool

  abbrev pub options_of : Timeout → Options
  options_of p = record { has_callback = true; delay = p.ms; type = one_time }

  pub data AllTame : List Timeout → Type 0 where
    no_plan : AllTame []
    more_plan :
        {p : Timeout} {plan : List Timeout}
        → IsTame uv laws p.callback
        → Returns uv laws p.callback
        → AllTame plan
        → AllTame (p ∷ plan)

  -- What became of a timeout: it was created, and its callback was called so many times on its way
  -- to `u`, not once if it was stopped at once.
  pub record Made (p : Timeout) (u : TimerState uv) : Type 0 where
    pub timer : TimerState uv
    pub created : create uv (fresh uv (options_of p) memory) ≡ (ok tt, timer)
    pub fired : ℕ
    pub steps : ℕ
    pub life : Life uv laws p.callback timer fired steps u
    pub unfired : (not p.stops_it || (fired == 0 && closing uv laws u)) ≡ true

  pub data AllMade : List Timeout → List (Slot uv) → Type 0 where
    none_made : AllMade [] []
    more_made :
        {p : Timeout} {u : TimerState uv} {plan : List Timeout} {slots : List (Slot uv)}
        → Made p u
        → AllMade plan slots
        → AllMade (p ∷ plan) (record { callback = p.callback; timer = u } ∷ slots)

  -- A timeout that was served: its timer is closed and does not hold itself, and its callback was
  -- called once unless it was stopped.
  pub record Served (p : Timeout) (u : TimerState uv) : Type 0 where
    pub made : Made p u
    pub closed : u.closed ≡ true
    pub let_go : u.self_held ≡ false
    pub called : (u.stopped || (made.fired == 1)) ≡ true

  pub data AllServed : List Timeout → List (Slot uv) → Type 0 where
    none_served : AllServed [] []
    more_served :
        {p : Timeout} {u : TimerState uv} {plan : List Timeout} {slots : List (Slot uv)}
        → Served p u
        → AllServed plan slots
        → AllServed (p ∷ plan) (record { callback = p.callback; timer = u } ∷ slots)

  pub AllMade-length :
      {plan : List Timeout} {slots : List (Slot uv)}
      → AllMade plan slots
      → length slots ≡ length plan
  AllMade-length none_made = refl
  AllMade-length (more_made m ms) = ap suc (AllMade-length ms)

  Made-IsLive :
      (p : Timeout) (u : TimerState uv)
      → IsTame uv laws p.callback
      → Made p u
      → IsLive uv laws u × (is_one_time u.type ≡ true)
  Made-IsLive p u tame m =
      let (l, type, s, k, c) = create-IsLive uv laws (options_of p) memory m.timer refl m.created in
      let (l', type') = Life-IsLive uv laws p.callback tame l m.life in
      (l', ap is_one_time (type' ∙ type))

  pub AllMade-ready :
      {plan : List Timeout} {slots : List (Slot uv)}
      → AllTame plan
      → AllMade plan slots
      → AllReady uv laws slots × AllOnce uv laws slots
  AllMade-ready no_plan none_made = (no_more, no_once)
  AllMade-ready (more_plan {p = p} tame returns rest) (more_made {u = u} m ms) =
      let (live, one) = Made-IsLive p u tame m in
      let (ready, once) = AllMade-ready rest ms in
      (one_more (record { live = live; tame = tame; returns = returns }) ready, more_once one once)

  still_unfired :
      (b k k' : Bool) (f g : ℕ)
      → (not b || (f == 0 && k)) ≡ true
      → g + left k' ≤ left k
      → (not b || (f + g == 0 && k')) ≡ true
  still_unfired false k k' f g h le = refl
  still_unfired true true true f g h le = ground arith
  still_unfired true true false f g h le = absurd (omega (arith, le))
  still_unfired true false k' f g h le = absurd (ground (arith, h))

  -- A timeout goes on.
  Made-then :
      (p : Timeout) (t u : TimerState uv) (fired steps : ℕ)
      → IsTame uv laws p.callback
      → Made p t
      → Life uv laws p.callback t fired steps u
      → Made p u
  Made-then p t u fired steps tame m l =
      let (live, one) = Made-IsLive p t tame m in
      let spends = Life-Spends uv laws p.callback tame live one l in
      record {
        timer = m.timer;
        created = m.created;
        fired = m.fired + fired;
        steps = m.steps + steps;
        life = Life-then uv laws p.callback m.life l;
        unfired =
            still_unfired p.stops_it (closing uv laws t) (closing uv laws u) m.fired fired m.unfired
              spends.calls;
      }

  served_once :
      (c h s f : Bool)
      → c ≡ true
      → (not c || (not h && (s || f))) ≡ true
      → (h ≡ false) × ((s || f) ≡ true)
  served_once c h s f e g = (ground arith, ground arith)

  closed_of_idle : (c a d : Bool) → (c || (a || d)) ≡ true → (a || d) ≡ false → c ≡ true
  closed_of_idle c a d h e = ground arith

  or_parts : (a b : Bool) → (a || b) ≡ false → (a ≡ false) × (b ≡ false)
  or_parts a b e = (ground arith, ground arith)

  -- Nothing is owed to a timer: its timeout was served.
  Made-Served :
      (p : Timeout) (u : TimerState uv)
      → IsTame uv laws p.callback
      → Made p u
      → owed uv u ≡ false
      → Served p u
  Made-Served p u tame m idle =
      let (going, again) =
        Life-progress uv laws (options_of p) memory p.callback m.timer u m.fired m.steps refl tame
          m.created m.life in
      let closed = closed_of_idle u.closed (active uv laws u) (uv.close_due u.handle) going idle in
      let (few, most, ends) =
        one_time-ends uv laws (options_of p) memory p.callback m.timer u m.fired m.steps refl refl
          tame m.created m.life in
      let (gone, called) = served_once u.closed u.self_held u.stopped (m.fired == 1) closed ends in
      record { made = m; closed = closed; let_go = gone; called = called }

  pub Lives-served :
      {plan : List Timeout} {slots slots' : List (Slot uv)} {n : ℕ}
      → AllTame plan
      → AllMade plan slots
      → Lives uv laws slots n slots'
      → any_owed uv slots' ≡ false
      → AllServed plan slots' × (any_open uv slots' ≡ false)
  Lives-served no_plan none_made no_lives idle = (none_served, refl)
  Lives-served (more_plan {p = p} tame returns rest) (more_made {u = t} m ms)
        (more_lives {u = u} {fired = f} {steps = n} l ls) idle =
      let (none_here, none_there) = or_parts (owed uv u) _ idle in
      let served = Made-Served p u tame (Made-then p t u f n tame m l) none_here in
      let (others, closed) = Lives-served rest ms ls none_there in
      (more_served served others, rw served.closed closed)
