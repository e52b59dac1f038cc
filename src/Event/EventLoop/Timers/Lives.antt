-- ===== src/Event/EventLoop/Timers/Lives.antt =====
-- The timers of a `UvEventLoop` (dk_pull/event/event_loop/uv_event_loop.cc), each at its own pace.
use dk_pull.Base.{ℕ, length, ◌+◌, ◌*◌, ◌≤◌, ◌≡◌, ◌∙◌, ap, true, List, [], ◌∷◌, arith}
use dk_pull.Event.Uv.{Uv, IsUv}
use dk_pull.Event.Timer.{TimerState, is_one_time}
use dk_pull.Event.Timer.Life.{IsTame, IsLive}
use dk_pull.Event.Timer.Ends.{rank, rank-most, Life, begins, Life-IsLive, Life-Spends}
use dk_pull.Event.Timer.Closes.{Returns, Life-then}
use dk_pull.Event.EventLoop.Timers.{Slot, Callback}

module _ (uv : Uv) (laws : IsUv uv) where
  -- A timer at rest, with a callback that returns and does no more to it than to stop it.
  pub record IsReady (s : Slot uv) : Type 0 where
    pub live : IsLive uv laws s.timer
    pub tame : IsTame uv laws s.callback
    pub returns : Returns uv laws s.callback

  pub data AllReady : List (Slot uv) → Type 0 where
    no_more : AllReady []
    one_more :
        {s : Slot uv} {slots : List (Slot uv)} → IsReady s → AllReady slots → AllReady (s ∷ slots)

  -- `Lives slots n slots'`: each timer went through some steps, `n` in all.
  pub data Lives : List (Slot uv) → ℕ → List (Slot uv) → Type 0 where
    no_lives : Lives [] 0 []
    more_lives :
        {callback : Callback uv} {t u : TimerState uv} {fired steps n : ℕ}
        {slots slots' : List (Slot uv)}
        → Life uv laws callback t fired steps u
        → Lives slots n slots'
        → Lives
            (record { callback = callback; timer = t } ∷ slots)
            (steps + n)
            (record { callback = callback; timer = u } ∷ slots')

  pub unmoved : (slots : List (Slot uv)) → Lives slots 0 slots
  unmoved [] = no_lives
  unmoved (s ∷ slots) = more_lives begins (unmoved slots)

  pub Lives-then :
      {r s t : List (Slot uv)} {n m : ℕ} → Lives r n s → Lives s m t → Lives r (n + m) t
  Lives-then no_lives no_lives = no_lives
  Lives-then (more_lives {callback = callback} {fired = f} {steps = a} {n = b} l ls)
        (more_lives {fired = g} {steps = c} {n = d} k ks) =
      let same : a + b + (c + d) ≡ a + c + (b + d) = omega arith in
      rw same (more_lives (Life-then uv laws callback l k) (Lives-then ls ks))

  abbrev pub total : List (Slot uv) → ℕ
  total [] = 0
  total (s ∷ slots) = rank uv laws s.timer + total slots

  pub total-most : (slots : List (Slot uv)) → total slots ≤ 3 * length slots
  total-most [] = omega arith
  total-most (s ∷ slots) = omega (arith, total-most slots, rank-most uv laws s.timer)

  pub Lives-ready :
      {slots slots' : List (Slot uv)} {n : ℕ}
      → AllReady slots
      → Lives slots n slots'
      → AllReady slots'
  Lives-ready no_more no_lives = no_more
  Lives-ready (one_more r rs) (more_lives {callback = callback} l ls) =
      let (live, type) = Life-IsLive uv laws callback r.tame r.live l in
      one_more (record { live = live; tame = r.tame; returns = r.returns }) (Lives-ready rs ls)

  pub data AllOnce : List (Slot uv) → Type 0 where
    no_once : AllOnce []
    more_once :
        {s : Slot uv} {slots : List (Slot uv)}
        → is_one_time s.timer.type ≡ true
        → AllOnce slots
        → AllOnce (s ∷ slots)

  -- One-time timers stay what they are, and each step uses up one of those that they have.
  pub Lives-once :
      {slots slots' : List (Slot uv)} {n : ℕ}
      → AllReady slots
      → AllOnce slots
      → Lives slots n slots'
      → AllOnce slots' × (n + total slots' ≤ total slots)
  Lives-once no_more no_once no_lives = (no_once, omega arith)
  Lives-once (one_more r rs) (more_once once os) (more_lives {callback = callback} l ls) =
      let (later, fewer) = Lives-once rs os ls in
      let (live, type) = Life-IsLive uv laws callback r.tame r.live l in
      let spends = Life-Spends uv laws callback r.tame r.live once l in
      (more_once (ap is_one_time type ∙ once) later, omega (arith, fewer, spends.ranks))
