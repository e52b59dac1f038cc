-- ===== src/Examples/Deferred.antt =====
-- Rounds of a looper that are left to be ended later.
use dk_pull.Base.{
  ℕ, ◌≤◌, ◌≡◌, refl, sym, List, [], ◌∷◌, length, ◌==◌, Bool-cases, inl, inr, arith, if◌then◌else◌,
}
use dk_pull.Base.Action.{ok, ◌>>◌}
use dk_pull.Looper
use dk_pull.Looper.{LooperFunction, idle}
use dk_pull.Looper.Deferred.{Turn, asks, stops, Round, turns, parks, Defers, resume, start-deferred}
use dk_pull.Examples.World.{World, world, the_looper}

-- The end of a round: it asks for the next one as long as there are numbers.
abbrev countdown_from : List ℕ → LooperFunction World
countdown_from [] next w = (ok tt, w)
countdown_from (x ∷ xs) next w = next (record w { seen = xs })

abbrev countdown : LooperFunction World
countdown next w = countdown_from w.seen next w

-- A round that is ended later, but for those with the number 0.
abbrev hesitant_from : List ℕ → LooperFunction World
hesitant_from [] next w = (ok tt, w)
hesitant_from (x ∷ xs) next w = if x == 0 then next (record w { seen = xs }) else (ok tt, w)

abbrev hesitant : LooperFunction World
hesitant next w = hesitant_from w.seen next w

abbrev Rounds : ℕ → World → Type 0
Rounds n w = length w.seen ≡ n

abbrev NoRounds : World → Type 0
NoRounds w = w.seen ≡ []

countdown-Turn :
    (xs : List ℕ) (n : ℕ) (w : World)
    → w.seen ≡ xs
    → length xs ≡ n
    → Turn the_looper countdown Rounds NoRounds n w
countdown-Turn [] n w h e = stops w (sym e) (λ next. rw h refl) h refl
countdown-Turn (x ∷ xs) n w h e =
    asks (length xs) (record w { seen = xs }) (omega arith) (λ next. rw h refl) refl refl

hesitant-Round :
    (xs : List ℕ) (n : ℕ) (w : World)
    → w.seen ≡ xs
    → length xs ≡ n
    → Round the_looper hesitant Rounds Rounds NoRounds n w
hesitant-Round [] n w h e = turns (stops w (sym e) (λ next. rw h refl) h refl)
hesitant-Round (x ∷ xs) n w h e = elim (Bool-cases (x == 0)) [
  | inl now ↦
      turns (
        asks (length xs) (record w { seen = xs }) (omega arith) (λ next. rw (h, now) refl) refl
          refl)
  | inr after ↦ parks w (λ next. rw (h, after) refl) (rw h e) refl
]

hesitant-Defers : Defers the_looper hesitant countdown Rounds Rounds NoRounds
hesitant-Defers = record {
  stable = λ n l w h. h;
  stable_parked = λ n l w h. h;
  stable_end = λ l w h. h;
  round = λ n w h. hesitant-Round w.seen n w refl h;
  wake = λ n w h. countdown-Turn w.seen n w refl h;
}

start-deferred_example :
    (k : ℕ) × (k ≤ 5)
    × (w' : World) × ((do
      Looper.create the_looper
      Looper.start the_looper hesitant 6
      resume the_looper hesitant countdown 6 k)
          (record (world [] 0) { seen = 0 ∷ 5 ∷ 0 ∷ 6 ∷ [] })
        ≡ (ok tt, w'))
    × NoRounds w'
    × (w'.looper ≡ idle)
start-deferred_example =
    start-deferred the_looper hesitant countdown Rounds Rounds NoRounds hesitant-Defers 4 6
      (record (world [] 0) { seen = 0 ∷ 5 ∷ 0 ∷ 6 ∷ [] }) (omega arith) refl
