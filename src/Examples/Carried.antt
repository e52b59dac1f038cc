-- ===== src/Examples/Carried.antt =====
-- The protocol checker around a source of the world.
use dk_pull.Base.{ℕ, ◌≡◌, refl, true, some, [], ◌∷◌, ◌++◌}
use dk_pull.Base.Action.{ok, throw, logic_error}
use dk_pull.Types.EndOrError.{ended, going}
use dk_pull.Types.Stream.{Source, SourceCallback}
use dk_pull.PullStream.ProtocolChecker.{what, requested_after_abort}
use dk_pull.PullStream.ProtocolChecker.Wrap.{wrapped, through}
use dk_pull.PullStream.ProtocolChecker.Protocol.{request}
use dk_pull.PullStream.ProtocolChecker.Trace.{Closure, Trace, call, step, new_trace}
use dk_pull.PullStream.ProtocolChecker.Carried.{through-step, through-throw, wrapped-call}
use dk_pull.PullStream.Sources.Values
use dk_pull.Examples.World.{World, world, the_values, the_checker, see}
use dk_pull.Examples.Checker.{program, eager, forbidding}

abbrev digits : Source World ℕ
digits = Values.source the_values 0

abbrev look : SourceCallback World ℕ
look done x = see x

-- A first request, its answer, and a second request after an abort.
abbrev asked_once : Trace
asked_once = (step (request going true) (new_trace eager)).1

abbrev first : Closure
first = record { i = 1; counter = 0 }

abbrev answered_once : Trace
answered_once = (call (some (some first)) ended asked_once).1

abbrev aborted_once : Trace
aborted_once = (step (request ended true) (new_trace forbidding)).1

abbrev aborted_twice : Trace
aborted_twice = (step (request ended true) aborted_once).1

asks_once : step (request going true) (new_trace eager) ≡ (ok tt, asked_once)
unfolding program
asks_once = refl

ends_once : call (some (some first)) ended asked_once ≡ (ok tt, answered_once)
unfolding program
ends_once = refl

refuses_twice :
    step (request ended true) aborted_once
    ≡ (throw (logic_error (what requested_after_abort)), aborted_twice)
unfolding program
refuses_twice = refl

abbrev with_checker : Trace → World
with_checker t = record (world (7 ∷ 8 ∷ []) 0) { checker = t.checker }

through-step_example :
    (c : Closure) × (asked_once.issued ≡ [] ++ some c ∷ [])
    × (through the_checker digits going (some look) (with_checker (new_trace eager))
        ≡ digits going (some (wrapped the_checker c.i c.counter look)) (with_checker asked_once))
through-step_example =
    through-step the_checker look digits going (new_trace eager) asked_once
      (with_checker (new_trace eager)) refl asks_once

through-throw_example :
    through the_checker digits ended (some look) (with_checker aborted_once)
    ≡ (throw (logic_error (what requested_after_abort)), with_checker aborted_twice)
through-throw_example =
    through-throw the_checker look digits ended aborted_once aborted_twice
      (with_checker aborted_once) (logic_error (what requested_after_abort)) refl refuses_twice

wrapped-call_example :
    wrapped the_checker 1 0 look ended 7 (with_checker asked_once)
    ≡ look answered_once.checker.done 7 (with_checker answered_once)
wrapped-call_example =
    wrapped-call the_checker look first ended 7 asked_once answered_once (with_checker asked_once)
      refl ends_once
