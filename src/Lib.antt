-- ===== src/Lib.antt =====
-- A verification library for dk_pull, a C++ library of pull streams over libuv.
--
-- The program. A source is a function that takes an abort and a callback and calls the callback with
-- a value or with the end of the stream; a sink is a function that takes a source and asks it for
-- values; a through makes a source from a source. The parts are:
--   * dk_pull/types: `EndOrError`, and the types of sources, sinks, throughs and duplexes;
--   * dk_pull/looper: `Looper`, which turns the recursion of a sink that asks for the next value
--     inside the callback of the last one into a loop;
--   * dk_pull/pull_stream/sources: `Values`, `Count` and `MakeEmpty`;
--   * dk_pull/pull_stream/sinks: `Drain`, which runs on a looper, `Reduce`, which uses a drain,
--     `MakeCollect`, which uses a reduction, and `MakeAbortNowSink`;
--   * dk_pull/pull_stream/protocol_checker.h: a through that checks that the client and the source on
--     its two sides keep the protocol of pull streams, and `Terminate`, which reports;
--   * dk_pull/pull_stream/pull.h: `Pull`, which connects them;
--   * dk_pull/event: timers over libuv handles, and the event loop that runs them;
--   * dk_pull/common: `Finally` and `SplitString`.
--
-- The files.
--   * Base: what the others share. Base/Tests has Boolean tests and `uint64_t` counting, which wraps
--     around at 2^64; Base/Lists has lists over native numbers. In Base/Action a call is a function on
--     the whole state of the program, the world, that ends with a value, an exception or an abort of
--     the process; what was written before an exception stays written. In Base/Ref a reference is a
--     pointer to an object of the world: a closure that captures `self` captures a reference, and two
--     references are apart if they point to different objects. So a callback may itself use any
--     object, the one that calls it included.
--   * Types/EndOrError and Types/Stream: dk_pull/types. A callback that the code compares with
--     `nullptr` is an `Option`. The reference-counted lifetime of an object is modelled for `Reduce`
--     alone, which holds itself weakly.
--   * Looper: dk_pull/looper. `enter` is the closure of `makeNext`, `loop` its `while`, `start` is
--     `Start`. Looper/Rule has the rules by which the sinks use it,
--     Looper/Later those for a function that asks for the next round at once or later,
--     Looper/Deferred those for one that may leave a round to be ended by something else,
--     Looper/Endless those for one that always asks, and Looper/Throws those for one that throws.
--     Looper/Scripts has a function that may call `next` anywhere and any number of times, throw,
--     and catch what `next` throws, on a machine that counts calls; Looper/Keeps, Depth and
--     Requests are about its invariants, Looper/Served about how far such a function goes.
--   * PullStream/Sources/Values, Count and Empty, and PullStream/Sinks/AbortNow, Drain, Reduce and
--     Collect: the files of the same names. PullStream/Pull: `Pull`, `Link` and `MakeDuplex`.
--   * PullStream/Conforming: the interface between sources and sinks, what a source that answers at
--     once promises, and of one that can be aborted; its child modules are about how the sources
--     fill it.
--     PullStream/Sinks/Drain/Visits, Sinks/Reduce/Folds and Sinks/Collect/Gathers rest on that
--     interface alone; Sinks/Drain/Endless is about a drain of `Count`, Sinks/Drain/Throws about one
--     whose function for values throws, Sinks/Reduce/Throws about a reducer that throws, and
--     PullStream/Pipeline puts the parts together, Pipeline/Throws with such a drain, and
--     Pipeline/Aborts with a client that takes some values and aborts. PullStream/Deferring is the
--     interface of a source that may answer later, and Sinks/Drain/Later, Sinks/Reduce/Later and Sinks/Collect/Later are about sinks of such a source.
--     Sinks/Reduce/Steps has what the reductions of both kinds share.
--   * PullStream/ProtocolChecker: the checker's state and methods, with `check_request`,
--     `take_number`, `mark_skipped` and `new_counter` for the parts of a request and
--     `check_callback` for the callback's closure. ProtocolChecker/Messages has its messages and
--     ProtocolChecker/Wrap `Through`. ProtocolChecker/Protocol is the protocol on its own, over
--     histories of requests and answers; ProtocolChecker/Trace runs the checker on such a history,
--     as `Through` does with a source that keeps its callbacks. ProtocolChecker/Diagnosis is the
--     first violation of a history, and ProtocolChecker/Violations the list of all of them, each on
--     its own. ProtocolChecker/Carried is about `Through` around any source of any world, against
--     that run. The other modules are steps of the proofs: InOrder, Transparent and Waiting for a
--     source that keeps the protocol, Emits, Checks, Cells, Tallies, Agrees, Answers and Complete for
--     all violations of any run, Follows, Firsts and Outcome for the first of them against the
--     protocol, and Notified and Terminate for `Terminate` on its own.
--   * Event/Uv: what the code uses of libuv, a parameter of the timers, and what libuv documents of
--     it. Event/Timer: `Timer` and `UvTimer`, one handle to a timer; Timer/Lifetime is about one
--     operation, Timer/Runs about sequences of them, Timer/Life, Moves, Ends, Closes and
--     Intervals about how such a sequence goes on and ends. Event/EventLoop: `EventLoop`, a record
--     of its virtual functions, and `UvEventLoop`, with EventLoop/Ends about the loop of `Run`. EventLoop/Timers has the loop
--     with its timers, `CreateTimer` and what a client can do with a timer; Timers/Laws is what libuv
--     documents of a loop, Timers/Lives the progress of several timers, Timers/Timeouts and
--     Timers/Rounds a client that sets timeouts, Timers/Settled what `Run` leaves.
--   * Common/Finally and Common/SplitString: the files of the same names.
--   * Examples: tests, and each result that has conditions at a concrete point.
--
-- Bounds and fuel. The members of `Count` and of the checker and its closures' counters are
-- `uint64_t` and wrap around; the results about them say how many requests they allow. The loops of
-- the looper, of the event loop and of `SplitString` run on fuel, and each result about them says how
-- much is enough. `Terminate`'s loop recurses on the number of its rounds.
--
-- Not modelled. libuv itself, which is a parameter; logging; move semantics, but for what a
-- function leaves of an accumulator that it gets a reference to, which is a parameter; comparisons
-- of pointers and functions that are never null in the code; the messages of failed checks; callbacks of timers that create timers or touch another
-- one, in the results about a whole event loop; results about `Finally`, which has tests only; copies of other projects, build files and scripts.
pub mod Base
pub mod Types
pub mod Looper
pub mod PullStream
pub mod Event
pub mod Common
pub mod Examples
