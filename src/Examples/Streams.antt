-- ===== src/Examples/Streams.antt =====
-- Streams: values, counting, draining, collecting, and the looper under them.
use dk_pull.Base.{ℕ, ◌≡◌, refl, some, List, [], ◌∷◌, ◌++◌, arith, next_u64, ◌^◌, ◌-◌}
use dk_pull.Base.Action.{ok, fatal, out_of_fuel, bad_function_call, raise, ◌>>◌}
use dk_pull.Base.Ref.{zoom}
use dk_pull.Types.EndOrError.{Done, ended, going}
use dk_pull.Types.Stream.{Source}
use dk_pull.Looper
use dk_pull.Looper.{Looper, LooperFunction, idle, make_next, start}
use dk_pull.PullStream.Pull.{pull_all, pull_sink}
use dk_pull.PullStream.Conforming.{Leaves}
use dk_pull.PullStream.Conforming.Values.{IsEmpty, values-Conforming, values-Leaves}
use dk_pull.PullStream.Conforming.Count.{IsPast, count-Conforming, count-Leaves}
use dk_pull.PullStream.Sources.Values
use dk_pull.PullStream.Sources.Count
use dk_pull.PullStream.Sources.Count.{Count}
use dk_pull.PullStream.Sinks.Drain
use dk_pull.PullStream.Sinks.Drain.{Drain}
use dk_pull.PullStream.Sinks.Drain.Visits.{Consumes, sink_visits}
use dk_pull.PullStream.Sinks.Drain.Endless.{Returns, sink-never_ends}
use dk_pull.PullStream.Sinks.Reduce.{State}
use dk_pull.PullStream.Sinks.Reduce
use dk_pull.PullStream.Sinks.Reduce.Steps.{Reduces}
use dk_pull.PullStream.Sinks.Reduce.Folds.{sink_folds, on_answer-release}
use dk_pull.PullStream.Sinks.Collect
use dk_pull.PullStream.Sinks.Collect.{reduction}
use dk_pull.PullStream.Sinks.Collect.Gathers.{Reports, sink_gathers}
use dk_pull.PullStream.Sinks.AbortNow.{make_abort_now_sink}
use dk_pull.PullStream.Conforming.Empty.{Always}
use dk_pull.PullStream.Sources.Empty.{make_empty}
use dk_pull.PullStream.Pipeline.Empty.{pull-empty}
use dk_pull.PullStream.Pipeline.{pull-terminate, pull-count, abort_now-through, new_checker-IsOpen}
use dk_pull.PullStream.ProtocolChecker.{default_options, terminate}
use dk_pull.PullStream.ProtocolChecker.Wrap.{through}
use dk_pull.Examples.World.{
  World, world, the_values, the_count, the_looper, the_reduction, the_checker, looper_values,
  reduction_values, checker_values, looper_count, reduction_count, looper_reduction, looper_checker,
  reduction_checker, see, tell, collected_leaves, collected,
}

abbrev digits : List ℕ
digits = 7 ∷ 8 ∷ 9 ∷ []

abbrev from_values : Source World ℕ
from_values = Values.source the_values 0

abbrev from_count : Source World ℕ
from_count = Count.source the_count

looper_leaves : Leaves the_looper (values-Conforming the_values 0)
looper_leaves = values-Leaves the_values the_looper looper_values 0

reduction_leaves : Leaves the_reduction (values-Conforming the_values 0)
reduction_leaves = values-Leaves the_values the_reduction reduction_values 0

checker_leaves : Leaves the_checker (values-Conforming the_values 0)
checker_leaves = values-Leaves the_values the_checker checker_values 0

-- Draining.
abbrev watcher : Drain World ℕ
watcher = Drain.create (some see) (some tell)

-- What a drain of `Count` up to 2 has shown.
abbrev Seen : List ℕ → World → Type 0
Seen ys w = w.seen ≡ ys × (w.told ≡ [])

abbrev Told : List ℕ → World → Type 0
Told ys w = w.told ≡ (ended, ys) ∷ []

watcher-Consumes : Consumes (count-Conforming the_count) the_looper watcher Seen Told
unfolding count-Conforming
watcher-Consumes = record {
  value = λ ys x xs w (seen, told) left.
      (record w { seen = w.seen ++ x ∷ [] }, refl, (rw seen refl, told), left, refl);
  done = λ ys w (seen, told) closed.
      (record w { told = w.told ++ (ended, w.seen) ∷ [] }, refl, rw (told, seen) refl, refl);
  seen_looper = λ ys l w seen. seen;
  told_looper = λ ys l w told. told;
  seen_advance = λ ys x xs w left seen. seen;
  seen_finish = λ ys w left seen. seen;
}

sink_visits_example :
    (w' : World) × (Drain.sink watcher the_looper 9 from_count (world [] 2) ≡ (ok tt, w'))
    × Told (0 ∷ 1 ∷ 2 ∷ []) w'
    × (w'.looper ≡ idle)
sink_visits_example =
    sink_visits (count-Leaves the_count the_looper looper_count) watcher watcher-Consumes
      (0 ∷ 1 ∷ 2 ∷ []) 9 (world [] 2) (omega arith) (refl, refl) (3, refl, refl, omega arith)

drained :
    (Drain.sink watcher the_looper 9 from_count (world [] 2)).1.told ≡ (ended, 0 ∷ 1 ∷ 2 ∷ []) ∷ []
unfolding Drain.sink Drain.request Looper.start Looper.make_next Looper.enter Looper.loop
    Count.source next_u64
drained = refl

-- Collecting.
abbrev Got : List ℕ → World → Type 0
Got vector w = (before : List (Done × List ℕ)) × (w.told ≡ before ++ (ended, vector) ∷ [])

collected-Reports : Reports collected the_looper (IsEmpty the_values) ended Got
collected-Reports = record {
  report = λ vector w closed.
      (record w { told = w.told ++ (ended, vector) ∷ [] }, refl, (w.told, refl), refl);
  reported_looper = λ vector l w got. got;
}

sink_gathers_example :
    (w' : World) × ((Collect.create the_reduction
          >> Collect.sink collected_leaves (some collected) the_reduction the_looper 9 from_values)
        (world digits 0)
      ≡ (ok tt, w'))
    × Got digits w'
    × (w'.looper ≡ idle)
sink_gathers_example =
    sink_gathers looper_leaves reduction_leaves looper_reduction collected_leaves collected
      collected-Reports digits 9 (world digits 0) (omega arith) refl

pull-terminate_example :
    (w' : World) × ((do
      Collect.create the_reduction
      pull_all from_values
          (through the_checker)
          (Collect.sink collected_leaves (some collected) the_reduction the_looper 9)
      zoom the_checker terminate)
        (world digits 0)
      ≡ (ok [], w'))
    × Got digits w'
pull-terminate_example =
    pull-terminate the_checker looper_leaves reduction_leaves checker_leaves looper_reduction
      looper_checker reduction_checker collected_leaves collected collected-Reports default_options
      digits 9 (world digits 0) (λ vector w w' ran. cc) (omega arith) (omega arith) refl refl

-- Draining `Count` with the largest maximum.
watcher-Returns : Returns the_count the_looper looper_count see
watcher-Returns v w = (record w { seen = w.seen ++ v ∷ [] }, refl, refl, refl)

sink-never_ends_example :
    (w' : World) × (Drain.sink
        (Drain.create (some see) (some tell))
        the_looper
        1000
        from_count
        (world [] (2 ^ 64 - 1))
      ≡ (out_of_fuel, w'))
sink-never_ends_example =
    sink-never_ends the_count the_looper looper_count see (some tell) watcher-Returns 1000
      (world [] (2 ^ 64 - 1)) (refl, omega arith)

-- What the callback of a collection of `Count` has been given.
count-Reports : Reports collected the_looper (IsPast the_count) ended Got
count-Reports = record {
  report = λ vector w closed.
      (record w { told = w.told ++ (ended, vector) ∷ [] }, refl, (w.told, refl), refl);
  reported_looper = λ vector l w got. got;
}

pull-count_example :
    (w' : World) × ((do
      Count.create the_count 2
      Collect.create the_reduction
      pull_sink from_count
          (Collect.sink collected_leaves (some collected) the_reduction the_looper 9))
        (world [] 0)
      ≡ (ok tt, w'))
    × Got (0 ∷ 1 ∷ 2 ∷ []) w'
    × (w'.looper ≡ idle)
pull-count_example =
    pull-count looper_reduction collected_leaves collected the_count looper_count reduction_count
      count-Reports 2 9 (world [] 0) (omega arith) (omega arith)

-- A reduction to the vector of the values in the opposite order.
abbrev backwards : Reduce.Reduce World (List ℕ) ℕ
backwards = record {
  reducer = λ a v w. (ok (v ∷ a), w);
  callback = some collected;
  reducer_leaves = λ a v w. [];
  callback_leaves = collected_leaves;
}

backwards-Reduces : Reduces backwards (λ a v. v ∷ a) the_looper (IsEmpty the_values) ended Got
backwards-Reduces = record {
  pure_reducer = λ a v w. refl;
  report =
      λ a w closed. (record w { told = w.told ++ (ended, a) ∷ [] }, refl, (w.told, refl), refl);
  reported_looper = λ a l w got. got;
}

sink_folds_example :
    (w' : World) × ((Reduce.create the_reduction []
          >> Reduce.sink backwards the_reduction the_looper 9 from_values)
        (world digits 0)
      ≡ (ok tt, w'))
    × Got (9 ∷ 8 ∷ 7 ∷ []) w'
    × (w'.looper ≡ idle)
sink_folds_example =
    sink_folds looper_leaves reduction_leaves looper_reduction backwards backwards-Reduces [] digits
      9 (world digits 0) (omega arith) refl

-- An answer that comes after the reduction has been let go.
on_answer-release_example :
    (Reduce.release the_reduction
        >> Drain.on_answer
            (Drain.create
              (some (Reduce.on_value backwards the_reduction))
              (some (Reduce.on_done backwards the_reduction)))
            (raise bad_function_call)
            going
            7)
      (world digits 0)
    ≡ (fatal, world digits 0)
on_answer-release_example =
    on_answer-release backwards the_reduction (raise bad_function_call) going 7 (world digits 0)

-- Giving up at once.
abort_now-through_example :
    (w' : World) × (pull_all from_values
        (through the_checker)
        (make_abort_now_sink (some (λ e x w. tell e w)))
        (world digits 0)
      ≡ tell ended w')
    × (w'.values ≡ record { values = digits })
    × (terminate w'.checker ≡ (ok [], w'.checker))
abort_now-through_example =
    abort_now-through the_checker the_values checker_values 0 (λ e x w. tell e w) (world digits 0)
      (new_checker-IsOpen default_options 0 (omega arith))

-- Nothing to collect.
empty-Reports : Reports collected the_looper (Always ℕ) ended Got
empty-Reports = record {
  report = λ vector w closed.
      (record w { told = w.told ++ (ended, vector) ∷ [] }, refl, (w.told, refl), refl);
  reported_looper = λ vector l w got. got;
}

pull-empty_example :
    (w' : World) × ((do
      Collect.create the_reduction
      pull_all
          (make_empty 0)
          (through the_checker)
          (Collect.sink collected_leaves (some collected) the_reduction the_looper 1)
      zoom the_checker terminate)
        (world [] 0)
      ≡ (ok [], w'))
    × Got [] w'
pull-empty_example =
    pull-empty the_checker looper_reduction looper_checker reduction_checker collected_leaves
      collected empty-Reports 0 default_options 1 (world [] 0) (λ vector w w' ran. cc) (omega arith)
      refl
