-- ===== src/Event/EventLoop/Ends.antt =====
-- The loop of `UvEventLoop::Run` (dk_pull/event/event_loop/uv_event_loop.cc).
use dk_pull.Base.{ℕ, zero, suc, ◌<◌, ◌≡◌, refl, Bool, true, false, inl, inr, Bool-cases, arith}
use dk_pull.Base.Action.{Action, ok}
use dk_pull.Event.EventLoop.{run}

module _ {ℓ} {L : Type ℓ} (loop_init : Action L ℕ) (loop_alive : L → Bool)
    (run_once : Action L (Unit {0})) (loop_close : Action L ℕ) where
  -- As below, with something that each turn keeps.
  pub run-ends_keeping {κ} :
      (Inv : L → Type κ) (bound : L → ℕ) (fuel : ℕ) (l : L)
      → ((m : L)
          → Inv m
          → loop_alive m ≡ true
          → (m' : L) × (run_once m ≡ (ok tt, m')) × Inv m' × (bound m' < bound m))
      → Inv l
      → bound l < fuel
      → (l' : L) × (run loop_init loop_alive run_once loop_close fuel l ≡ (ok tt, l'))
        × Inv l'
        × (loop_alive l' ≡ false)
  unfolding run
  run-ends_keeping Inv bound zero l turn i lt = absurd (omega arith)
  run-ends_keeping Inv bound (suc fuel) l turn i lt = elim (Bool-cases (loop_alive l)) [
    | inl alive ↦
        let (m, once, j, less) = turn l i alive in
        let (l', rest, k, dead) = run-ends_keeping Inv bound fuel m turn j (omega arith) in
        (l', rw (alive, run) (rw once rest), k, dead)
    | inr dead ↦ (l, rw (dead, run) refl, i, dead)
  ]

  -- If each turn of a loop that is alive returns and brings some bound down, then `Run` returns,
  -- with nothing alive. More fuel than the bound at the start is enough.
  pub run-ends :
      (bound : L → ℕ) (fuel : ℕ) (l : L)
      → ((m : L)
          → loop_alive m ≡ true
          → (m' : L) × (run_once m ≡ (ok tt, m')) × (bound m' < bound m))
      → bound l < fuel
      → (l' : L) × (run loop_init loop_alive run_once loop_close fuel l ≡ (ok tt, l'))
        × (loop_alive l' ≡ false)
  run-ends bound fuel l turn lt =
      let (l', run, i, dead) =
        run-ends_keeping (λ m. Unit {0}) bound fuel l
          (λ m i alive. let (m', once, less) = turn m alive in (m', once, tt, less)) tt lt in
      (l', run, dead)
