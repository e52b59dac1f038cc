-- ===== src/Examples/Aborts.antt =====
-- A client that takes two of three values through a checker, and then gives up with an error.
use dk_pull.Base.{ℕ, ◌≡◌, refl, List, [], ◌∷◌, ◌++◌, arith}
use dk_pull.Base.Action.{ok}
use dk_pull.Types.EndOrError.{Abort, of_message}
use dk_pull.Types.Stream.{Source, SourceCallback}
use dk_pull.PullStream.Conforming.{Leaves}
use dk_pull.PullStream.Conforming.Values.{values-Conforming, values-Leaves, values-Abortable, Holds}
use dk_pull.PullStream.Sources.Values
use dk_pull.PullStream.Pipeline.{new_checker-IsOpen}
use dk_pull.PullStream.Pipeline.Aborts.{Reads, take_some, take_some-Stopped}
use dk_pull.PullStream.ProtocolChecker.{default_options, terminate}
use dk_pull.PullStream.ProtocolChecker.Wrap.{through}
use dk_pull.Examples.World.{World, world, the_values, the_checker, checker_values, see, tell}

abbrev from_values : Source World ℕ
from_values = Values.source the_values 0

checker_leaves : Leaves the_checker (values-Conforming the_values 0)
checker_leaves = values-Leaves the_values the_checker checker_values 0

abbrev Seen : List ℕ → World → Type 0
Seen ys w = w.seen ≡ ys

see-Reads : Reads (values-Conforming the_values 0) the_checker see Seen
unfolding values-Conforming
see-Reads = record {
  value =
      λ ys x xs w seen left. (record w { seen = w.seen ++ x ∷ [] }, refl, rw seen refl, left, refl);
  seen_checker = λ ys s w seen. seen;
  seen_advance = λ ys x xs w left seen. seen;
}

abbrev enough : Abort
enough = of_message "enough"

abbrev at_end : SourceCallback World ℕ
at_end done v = tell done

take_some-Stopped_example :
    (w' : World) × (take_some 2 enough see at_end
        (through the_checker from_values)
        (world (7 ∷ 9 ∷ 8 ∷ []) 0)
      ≡ at_end enough 0 w')
    × Seen (7 ∷ 9 ∷ []) w'
    × Holds the_values (8 ∷ []) w'
    × (terminate w'.checker ≡ (ok [], w'.checker))
take_some-Stopped_example =
    take_some-Stopped (values-Abortable the_values 0) the_checker checker_leaves see-Reads enough
      refl at_end 2 (7 ∷ 9 ∷ 8 ∷ []) (world (7 ∷ 9 ∷ 8 ∷ []) 0) (omega arith) refl
      (refl, new_checker-IsOpen default_options 3 (omega arith))
