-- ===== src/Examples/Intervals.antt =====
-- An interval that goes on, and one that stops itself.
use dk_pull.Base.{ℕ, ◌≡◌, refl, ◌≤◌, ◌⊎◌, true}
use dk_pull.Base.Action.{skip}
use dk_pull.Event.Timer.{UvTimer}
use dk_pull.Event.Timer.Runs.{expires, closes}
use dk_pull.Event.Timer.Life.{stop-IsTame, skip-IsTame}
use dk_pull.Event.Timer.Ends.{Life, begins, goes_on}
use dk_pull.Event.Timer.Intervals.{repeated-fires, stopped-silent}
use dk_pull.Examples.Timers.{
  Handle, blank, uv, laws, every_minute, ticking, made, stop_self, stopped_now, gone, fires,
  lets_go,
}

repeated-fires_example :
    (f : ℕ) × (f ≤ 3)
    × (u : UvTimer Handle) × Life uv laws skip ticking f f u
    × ((f ≡ 3) ⊎ (u.stopped ≡ true))
repeated-fires_example =
    repeated-fires uv laws every_minute blank skip ticking 3 refl refl (skip-IsTame uv laws)
      (λ t v o. (t, refl)) made

fired_once : Life uv laws stop_self ticking 1 1 stopped_now
fired_once = goes_on begins (expires refl fires)

closed_then : Life uv laws stop_self stopped_now 0 1 gone
closed_then = goes_on begins (closes refl lets_go)

stopped-silent_example : (◌≡◌ {A = ℕ} 0 0) × (gone.stopped ≡ true) × (1 ≤ 1)
stopped-silent_example =
    stopped-silent uv laws every_minute blank stop_self ticking stopped_now gone 1 1 0 1 refl
      (stop-IsTame uv laws) made fired_once refl closed_then
