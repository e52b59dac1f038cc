-- ===== src/Examples/Throws.antt =====
-- A drain of `Values` whose function for values throws at an 8, alone and behind a checker, and a
-- reduction whose reducer does.
use dk_pull.Base.{
  true, false, none, ℕ, ◌≡◌, refl, ◌≢◌, List, [], ◌∷◌, ◌++◌, ◌==◌, ==-false, if◌then◌else◌, arith,
  some,
}
use dk_pull.Base.Action.{Action, ok, throw, raise, pure, bad_function_call, ◌>>◌}
use dk_pull.Types.Stream.{Source}
use dk_pull.Looper.Throws.{left_behind}
use dk_pull.PullStream.Conforming.{Leaves}
use dk_pull.PullStream.Conforming.Values.{values-Conforming, values-Leaves, Holds}
use dk_pull.PullStream.Sources.Values
use dk_pull.PullStream.Sinks.Drain
use dk_pull.PullStream.Sinks.Drain.{Drain}
use dk_pull.PullStream.Sinks.Drain.Throws.{Balks, sink-throw}
use dk_pull.PullStream.Sinks.Reduce
use dk_pull.PullStream.Sinks.Reduce.{Reduce}
use dk_pull.PullStream.Sinks.Reduce.Throws.{ReducerThrows, reducer-throw}
use dk_pull.PullStream.Pull.{pull_all}
use dk_pull.PullStream.Pipeline.Throws.{IgnoresChecker, pull-throw}
use dk_pull.PullStream.ProtocolChecker.{Options, new_checker, terminate, what, never_terminated}
use dk_pull.PullStream.ProtocolChecker.Wrap.{through}
use dk_pull.Examples.World.{
  the_checker, the_reduction, checker_values, looper_checker, reduction_values, looper_reduction,
  World, world, the_values, the_looper, looper_values, see, tell,
}

abbrev picky_see : ℕ → Action World (Unit {0})
picky_see x = if x == 8 then raise bad_function_call else see x

abbrev picky : Drain World ℕ
picky = Drain.create (some picky_see) (some tell)

abbrev from_values : Source World ℕ
from_values = Values.source the_values 0

looper_leaves : Leaves the_looper (values-Conforming the_values 0)
looper_leaves = values-Leaves the_values the_looper looper_values 0

abbrev Seen : List ℕ → World → Type 0
Seen ys w = w.seen ≡ ys × (w.told ≡ [])

picky-Balks :
    Balks
      (values-Conforming the_values 0)
      the_looper
      picky
      (λ x. x ≢ 8)
      8
      bad_function_call
      Seen
      Seen
unfolding values-Conforming
picky-Balks = record {
  value = λ ys v xs w fine (seen, told) left. (
    record w { seen = w.seen ++ v ∷ [] },
    rw (==-false v 8 fine) refl,
    (rw seen refl, told),
    left,
    refl,
  );
  balks = λ ys xs w seen left. (w, refl, seen, left, refl);
  seen_looper = λ ys l w seen. seen;
  seen_advance = λ ys v xs w left seen. seen;
}

sink-throw_example :
    (w' : World) × (Drain.sink picky the_looper 5 from_values (world (7 ∷ 9 ∷ 8 ∷ 6 ∷ []) 0)
      ≡ (throw bad_function_call, w'))
    × Seen (7 ∷ 9 ∷ []) w'
    × Holds the_values (6 ∷ []) w'
    × (w'.looper ≡ left_behind 2)
sink-throw_example =
    sink-throw looper_leaves picky picky-Balks (7 ∷ 9 ∷ []) (6 ∷ []) 5
      (world (7 ∷ 9 ∷ 8 ∷ 6 ∷ []) 0) (omega arith) (λ h. omega arith, (λ h. omega arith, tt))
      (refl, refl) refl

-- The same drain behind a checker.
checker_leaves : Leaves the_checker (values-Conforming the_values 0)
checker_leaves = values-Leaves the_values the_checker checker_values 0

picky-IgnoresChecker :
    IgnoresChecker the_checker looper_leaves checker_leaves looper_checker picky picky-Balks
picky-IgnoresChecker = record {
  keeps_checker = λ v r w w' h. ground (arith, h);
  keeps_seen = λ ys s w seen. seen;
}

abbrev watched : Options
watched = record {
  forbid_extra_requests = true;
  enforce_stream_termination = true;
  notify_eagerly = false;
}

pull-throw_example :
    (w' : World) × (pull_all from_values
        (through the_checker)
        (Drain.sink picky the_looper 5)
        (record (world (7 ∷ 9 ∷ 8 ∷ 6 ∷ []) 0) { checker = new_checker watched })
      ≡ (throw bad_function_call, w'))
    × Seen (7 ∷ 9 ∷ []) w'
    × Holds the_values (6 ∷ []) w'
    × ((terminate w'.checker).0 ≡ ok (what never_terminated ∷ []))
pull-throw_example =
    pull-throw the_checker looper_leaves checker_leaves looper_checker picky picky-Balks watched
      picky-IgnoresChecker (7 ∷ 9 ∷ []) (6 ∷ []) 5
      (record (world (7 ∷ 9 ∷ 8 ∷ 6 ∷ []) 0) { checker = new_checker watched }) (omega arith)
      (omega arith) (λ h. omega arith, (λ h. omega arith, tt)) refl (refl, refl) refl

-- A collection whose reducer throws at an 8, before it takes the vector.
abbrev picky_push : List ℕ → ℕ → Action World (List ℕ)
picky_push vector v = if v == 8 then raise bad_function_call else pure (vector ++ v ∷ [])

abbrev picky_reduction : Reduce World (List ℕ) ℕ
picky_reduction = record {
  reducer = picky_push;
  callback = none;
  reducer_leaves = λ vector v w. if v == 8 then vector else [];
  callback_leaves = λ done vector w. [];
}

picky-ReducerThrows :
    ReducerThrows picky_reduction
      (λ vector v. vector ++ v ∷ [])
      (λ v. v ≢ 8)
      8
      bad_function_call
      (λ vector. vector)
picky-ReducerThrows = record {
  reduces = λ a v w fine. rw (==-false v 8 fine) refl;
  throws = λ a w. refl;
  leaves = λ a w. refl;
}

reduction_leaves : Leaves the_reduction (values-Conforming the_values 0)
reduction_leaves = values-Leaves the_values the_reduction reduction_values 0

reducer-throw_example :
    (w' : World) × ((Reduce.create the_reduction []
          >> Reduce.sink picky_reduction the_reduction the_looper 5 from_values)
        (world (7 ∷ 9 ∷ 8 ∷ 6 ∷ []) 0)
      ≡ (throw bad_function_call, w'))
    × (w'.reduction ≡ some (record { has_drain = true; accumulator = 7 ∷ 9 ∷ [] }))
    × Holds the_values (6 ∷ []) w'
    × (w'.looper ≡ left_behind 2)
reducer-throw_example =
    reducer-throw looper_leaves reduction_leaves looper_reduction picky_reduction
      picky-ReducerThrows [] (7 ∷ 9 ∷ []) (6 ∷ []) 5 (world (7 ∷ 9 ∷ 8 ∷ 6 ∷ []) 0) (omega arith)
      (λ h. omega arith, (λ h. omega arith, tt)) refl
