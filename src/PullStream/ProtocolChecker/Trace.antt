-- ===== src/PullStream/ProtocolChecker/Trace.antt =====
-- A checker between a client and a source of which nothing is known: a run is any sequence of
-- requests and of calls of the callbacks that the source was given. This is `Through` with a source
-- that keeps its callbacks and calls them when it likes.
use dk_pull.Base.{ℕ, Bool, true, false, Option, none, some, List, [], ◌∷◌, ◌++◌, refl, get_elem?}
use dk_pull.Base.Action.{Action, ok, Message, skip, ◌>>=◌, ◌>>◌}
use dk_pull.Base.Ref.{Ref, zoom}
use dk_pull.Types.EndOrError.{Done}
use dk_pull.PullStream.ProtocolChecker.{
  Options, ProtocolChecker, new_checker, check_request, take_number, mark_skipped, new_counter,
  check_callback, terminate,
}
use dk_pull.PullStream.ProtocolChecker.Protocol.{Event, request, answer}

-- What a closure given to the source captures: the number of its request and its counter's cell.
pub record Closure : Type 0 where
  pub i : ℕ
  pub counter : ℕ

-- For each request, the closure that was made for it.
pub record Trace : Type 0 where
  pub checker : ProtocolChecker
  pub issued : List (Option Closure)

abbrev pub the_checker : Ref Trace ProtocolChecker
the_checker = record {
  get = λ t. t.checker;
  set = λ s t. record t { checker = s };
  get-set = λ s t. refl;
  set-set = λ s u t. refl;
  set-get = λ t. refl;
}

abbrev pub issue : Option Closure → Action Trace (Unit {0})
issue c t = (ok tt, record t { issued = t.issued ++ c ∷ [] })

-- The part of a request between the checks and the call of the source.
abbrev pub hand_over : Bool → ℕ → Action Trace (Unit {0})
hand_over true i = do
  counter ← zoom the_checker new_counter
  issue (some (record { i = i; counter = counter }))
hand_over false i = do zoom the_checker (mark_skipped i); issue none

-- There is nothing to call if the request had no callback.
abbrev pub call : Option (Option Closure) → Done → Action Trace (Unit {0})
call none done = skip
call (some none) done = skip
call (some (some c)) done = do d ← zoom the_checker (check_callback c.i c.counter done); skip

unfoldable pub step : Event → Action Trace (Unit {0})
step (request abort callback) t =
    (do
      zoom the_checker (check_request abort)
      i ← zoom the_checker (take_number abort)
      hand_over callback i)
      t
step (answer k done) t = call (get_elem? t.issued k) done t

unfoldable pub run : List Event → Action Trace (Unit {0})
run [] = skip
run (e ∷ es) = do step e; run es

abbrev pub new_trace : Options → Trace
new_trace options = record { checker = new_checker options; issued = [] }

-- A new checker, a run, and `Terminate`.
unfoldable pub report : List Event → Action Trace (List Message)
report es = do run es; zoom the_checker terminate
