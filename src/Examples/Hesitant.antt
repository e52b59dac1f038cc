-- ===== src/Examples/Hesitant.antt =====
-- Sinks of a source that answers at once or later.
use dk_pull.Base.{
  ℕ, ◌≤◌, ◌≡◌, refl, none, some, List, [], ◌∷◌, ◌++◌, ◌==◌, Bool-cases, inl, inr, arith,
  if◌then◌else◌,
}
use dk_pull.Base.Action.{Action, ok, ◌>>◌}
use dk_pull.Base.Ref.{Ref}
use dk_pull.Types.EndOrError.{Done, ended, going}
use dk_pull.Types.Stream.{Source, SourceCallback}
use dk_pull.Looper.{idle}
use dk_pull.Looper.Deferred.{resume}
use dk_pull.PullStream.Deferring.{Reply, gives, ends, Request, answers, waits, Deferring, Spares}
use dk_pull.PullStream.Sources.Values.{Values}
use dk_pull.PullStream.Sinks.Collect
use dk_pull.PullStream.Sinks.Collect.Gathers.{Reports}
use dk_pull.PullStream.Sinks.Collect.Later.{later, sink_gathers_later}
use dk_pull.PullStream.Sinks.Drain
use dk_pull.PullStream.Sinks.Drain.{Drain, request}
use dk_pull.PullStream.Sinks.Drain.Later.{Leaving, Watches, delivery, sink_later}
use dk_pull.Examples.World.{
  World, world, the_looper, the_reduction, looper_reduction, see, tell, collected_leaves, collected,
}

-- A source that answers a request for a 0 at once, and keeps the callback of any other.
abbrev reply_from : List ℕ → SourceCallback World ℕ → Action World (Unit {0})
reply_from [] cb w = cb ended 0 w
reply_from (x ∷ xs) cb w = cb going x (record w { values = record { values = xs } })

abbrev replies : SourceCallback World ℕ → Action World (Unit {0})
replies cb w = reply_from w.values.values cb w

abbrev ask_from : List ℕ → SourceCallback World ℕ → Action World (Unit {0})
ask_from [] cb w = (ok tt, w)
ask_from (x ∷ xs) cb w = if x == 0 then replies cb w else (ok tt, w)

abbrev hesitates : Source World ℕ
hesitates abort none w = (ok tt, w)
hesitates abort (some cb) w = ask_from w.values.values cb w

abbrev Notes : Type 0
Notes = List ℕ × List (Done × List ℕ)

abbrev the_notes : Ref World Notes
the_notes = record {
  get = λ w. (w.seen, w.told);
  set = λ x w. record w { seen = x.0; told = x.1 };
  get-set = λ x w. refl;
  set-set = λ x y w. refl;
  set-get = λ w. refl;
}

abbrev Left : List ℕ → World → Type 0
Left xs w = w.values.values ≡ xs

abbrev Closed : World → Type 0
Closed w = w.values.values ≡ []

-- With what a source of numbers leaves alone.
module _ {Frame : World → World → Type 0} (same : (w : World) → Frame w w)
    (moved : (x : Values ℕ) (w : World) → Frame w (record w { values = x })) where
  Reply-from : (xs : List ℕ) (w : World) → Left xs w → Reply replies Left Closed Frame ended xs w
  Reply-from [] w h = ends 0 w refl (λ cb. rw h refl) h (same w)
  Reply-from (x ∷ xs) w h =
      gives x xs (record w { values = record { values = xs } }) refl (λ cb. rw h refl) refl
        (moved (record { values = xs }) w)

  Request-from :
      (xs : List ℕ) (w : World) → Left xs w → Request hesitates Left Left Closed Frame ended xs w
  Request-from [] w h = waits w (λ cb. rw h refl) h (same w)
  Request-from (x ∷ xs) w h = elim (Bool-cases (x == 0)) [
    | inl now ↦ answers (
        gives x xs (record w { values = record { values = xs } }) refl (λ cb. rw (h, now) refl) refl
          (moved (record { values = xs }) w))
    | inr after ↦ waits w (λ cb. rw (h, after) refl) h (same w)
  ]

  hesitates-Deferring : Deferring hesitates replies Left Left Closed Frame ended
  hesitates-Deferring = record { over = refl; request = Request-from; reply = Reply-from }

notes-Deferring : Deferring hesitates replies Left Left Closed (Leaving the_looper the_notes) ended
notes-Deferring = hesitates-Deferring (λ w. (refl, refl)) (λ x w. (refl, refl))

reduction-Deferring :
    Deferring hesitates replies Left Left Closed (Leaving the_looper the_reduction) ended
reduction-Deferring = hesitates-Deferring (λ w. (refl, refl)) (λ x w. (refl, refl))

looper_spared : Spares the_looper Left Left Closed
looper_spared = record {
  left = λ xs l w left. left;
  waits = λ xs l w left. left;
  closed = λ l w closed. closed;
}

reduction_spared : Spares the_reduction Left Left Closed
reduction_spared = record {
  left = λ xs l w left. left;
  waits = λ xs l w left. left;
  closed = λ l w closed. closed;
}

abbrev watcher : Drain World ℕ
watcher = Drain.create (some see) (some tell)

abbrev Seen : List ℕ → Notes → Type 0
Seen ys notes = (notes.0 ≡ ys) × (notes.1 ≡ [])

abbrev Told : List ℕ → World → Type 0
Told ys w = w.told ≡ (ended, ys) ∷ []

watcher-Watches : Watches watcher the_looper the_notes Left Left Closed ended Seen Told
watcher-Watches = record {
  value = λ ys x xs w (seen, told) left.
      (record w { seen = w.seen ++ x ∷ [] }, refl, (rw seen refl, told), left, refl);
  done = λ ys w (seen, told) closed.
      (record w { told = w.told ++ (ended, w.seen) ∷ [] }, refl, rw (told, seen) refl, refl);
  apart = record { get-set_left = λ y w. refl; get-set_right = λ x w. refl };
  told_looper = λ ys l w told. told;
  spares = looper_spared;
}

abbrev numbers : List ℕ
numbers = 0 ∷ 7 ∷ 0 ∷ 8 ∷ []

sink_later_example :
    (k : ℕ) × (k ≤ 5)
    × (w' : World) × ((Drain.sink watcher the_looper 9 hesitates
            >> resume the_looper (request watcher hesitates) (delivery replies watcher) 9 k)
          (world numbers 0)
        ≡ (ok tt, w'))
    × Told numbers w'
    × (w'.looper ≡ idle)
sink_later_example =
    sink_later notes-Deferring watcher watcher-Watches numbers 9 (world numbers 0) (omega arith)
      (refl, refl) refl

-- The vector of the values, and the vector in the opposite order.
abbrev Got : List ℕ → World → Type 0
Got vector w = (before : List (Done × List ℕ)) × (w.told ≡ before ++ (ended, vector) ∷ [])

collected-Reports : Reports collected the_looper Closed ended Got
collected-Reports = record {
  report = λ vector w closed.
      (record w { told = w.told ++ (ended, vector) ∷ [] }, refl, (w.told, refl), refl);
  reported_looper = λ vector l w got. got;
}

sink_gathers_later_example :
    (k : ℕ) × (k ≤ 5)
    × (w' : World) × ((do
      Collect.create the_reduction
      Collect.sink collected_leaves (some collected) the_reduction the_looper 9 hesitates
      later hesitates replies collected_leaves collected the_reduction the_looper 9 k)
          (world numbers 0)
        ≡ (ok tt, w'))
    × Got numbers w'
    × (w'.looper ≡ idle)
sink_gathers_later_example =
    sink_gathers_later reduction-Deferring looper_spared reduction_spared looper_reduction
      collected_leaves collected collected-Reports numbers 9 (world numbers 0) (omega arith) refl
