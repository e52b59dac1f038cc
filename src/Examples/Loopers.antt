-- ===== src/Examples/Loopers.antt =====
-- Loopers that are asked for the next round at once, and at once or later.
use dk_pull.Base.{ℕ, zero, suc, arith, length, ◌≡◌, refl, List, [], ◌∷◌, ◌==◌, if◌then◌else◌}
use dk_pull.Base.Action.{Action, throw, bad_function_call, ok, ◌>>◌}
use dk_pull.Looper
use dk_pull.Looper.{LooperFunction, idle}
use dk_pull.Looper.Throws.{Fails, asks_between, mark, start-throw-stuck}
use dk_pull.Examples.World.{World, world, the_looper}

-- For a 0 it asks at once, for any other number later.
abbrev moody_step : List ℕ → LooperFunction World
moody_step [] next w = (ok tt, w)
moody_step (x ∷ xs) next w =
    if x == 0 then next (record w { seen = xs }) else (ok tt, record w { seen = xs })

abbrev moody : LooperFunction World
moody next w = moody_step w.seen next w

abbrev five_rounds : World
five_rounds = record (world [] 0) { seen = 0 ∷ 5 ∷ 0 ∷ 0 ∷ [] }

-- The first round asks, the second one waits; one call later all of them have been run.
once_more :
    ((do
      Looper.create the_looper
      Looper.start the_looper moody 6
      Looper.make_next the_looper moody 6)
      five_rounds).1
    ≡ world [] 0
unfolding Looper.start Looper.make_next Looper.enter Looper.loop
once_more = refl

-- It takes an element away and asks for the next round, until there is none.
abbrev countdown : LooperFunction World
countdown next w = elim w.seen [ [] ↦ (ok tt, w) | x ∷ xs ↦ next (record w { seen = xs }) ]

abbrev three_rounds : World
three_rounds = record (world [] 0) { seen = (7 ∷ 8 ∷ 9 ∷ []) }

counted_down :
    ((Looper.create the_looper >> Looper.start the_looper countdown 4) three_rounds).1 ≡ world [] 0
unfolding Looper.start Looper.make_next Looper.enter Looper.loop
counted_down = refl

-- It throws when there is no element left.
abbrev down_from : List ℕ → LooperFunction World
down_from [] next w = (throw bad_function_call, w)
down_from (x ∷ xs) next w = next (record w { seen = xs })

abbrev thrower : LooperFunction World
thrower next w = down_from w.seen next w

abbrev Elements : ℕ → World → Type 0
Elements n w = length w.seen ≡ n

abbrev NoElements : World → Type 0
NoElements w = w.seen ≡ []

thrower-Fails : Fails the_looper thrower Elements bad_function_call NoElements
thrower-Fails = record {
  stable = λ n l w h. h;
  step = λ n w h. down_step w.seen n w refl h;
  fails = λ w h. down_last w.seen w refl h;
}
  where
    down_step :
        (xs : List ℕ) (n : ℕ) (w : World)
        → w.seen ≡ xs
        → length xs ≡ suc n
        → (w' : World) × ((next : Action World (Unit {0})) → thrower next w ≡ next w')
          × Elements n w'
          × (w'.looper ≡ w.looper)
    down_step [] n w e h = absurd (omega arith)
    down_step (x ∷ xs) n w e h = (record w { seen = xs }, λ next. rw e refl, omega arith, refl)

    down_last :
        (xs : List ℕ) (w : World)
        → w.seen ≡ xs
        → length xs ≡ zero
        → (w' : World) × ((next : Action World (Unit {0}))
            → thrower next w ≡ (throw bad_function_call, w'))
          × NoElements w'
          × (w'.looper ≡ w.looper)
    down_last [] w e h = (w, λ next. rw e refl, e, refl)
    down_last (x ∷ xs) w e h = absurd (omega arith)

-- More elements, between two calls of `next`.
abbrev refill : Action World (Unit {0})
refill w = (ok tt, record w { seen = 5 ∷ w.seen })

start-throw-stuck_example :
    (w' : World) × ((Looper.create the_looper >> Looper.start the_looper thrower 4) three_rounds
      ≡ (throw bad_function_call, w'))
    × NoElements w'
    × (asks_between (Looper.make_next the_looper thrower 2) (refill ∷ refill ∷ []) w'
        ≡ asks_between (mark the_looper) (refill ∷ refill ∷ []) w')
start-throw-stuck_example =
    start-throw-stuck the_looper thrower Elements bad_function_call NoElements thrower-Fails 2 4 2
      (refill ∷ refill ∷ []) three_rounds (omega arith) refl (λ w. refl, (λ w. refl, tt))
