-- ===== src/PullStream/ProtocolChecker.antt =====
-- `ProtocolChecker` (dk_pull/pull_stream/protocol_checker.h). The methods and the two halves of the
-- closures run on the checker's own state; `Through` puts them around a source of the world.
mod Messages
pub use Messages.*
pub mod Wrap
pub mod InOrder
pub mod Transparent
pub mod Waiting
pub mod Protocol
pub mod Diagnosis
pub mod Trace
pub mod Notified
pub mod Cells
pub mod Terminate
pub mod Carried
pub mod Outcome
pub mod Violations
pub mod Emits
pub mod Checks
pub mod Tallies
pub mod Agrees
pub mod Answers
pub mod Complete
pub mod Follows
pub mod Firsts
use dk_pull.Base.{
  ℕ, zero, suc, ◌+◌, ◌-◌, Bool, true, false, not, ◌&&◌, ◌||◌, Option, none, some, List, [], ◌∷◌,
  ◌++◌, ltb, ◌==◌, if◌then◌else◌, next_u64, length, get_or, set,
}
use dk_pull.Base.Action.{Action, Message, logic_error, pure, raise, skip, ◌>>=◌, ◌>>◌}
use dk_pull.Types.EndOrError.{Abort, Done, going, to_bool}

-- `ProtocolChecker::Options`
pub record Options : Type 0 where
  pub forbid_extra_requests : Bool
  pub enforce_stream_termination : Bool
  pub notify_eagerly : Bool

-- The members, and the cells that the closures' `counter` pointers point to, by their order of
-- allocation. `i` and `latest` are `uint64_t`; `skipped` is a map.
pub record ProtocolChecker : Type 0 where
  pub forbid_extra_requests : Bool
  pub enforce_stream_termination : Bool
  pub notify_eagerly : Bool
  pub i : ℕ
  pub latest : ℕ
  pub skipped : List (ℕ × Bool)
  pub aborted : Abort
  pub done : Done
  pub errors : List Message
  pub counters : List ℕ

abbrev pub default_options : Options
default_options = record {
  forbid_extra_requests = false;
  enforce_stream_termination = false;
  notify_eagerly = true;
}

-- `ProtocolChecker::Create` and the constructor.
unfoldable pub new_checker : Options → ProtocolChecker
new_checker options = record {
  forbid_extra_requests = options.forbid_extra_requests;
  enforce_stream_termination = options.enforce_stream_termination;
  notify_eagerly = options.notify_eagerly;
  i = 1;
  latest = 0;
  skipped = [];
  aborted = going;
  done = going;
  errors = [];
  counters = [];
}

abbrev pub Method {ℓ} : Type ℓ → Type ℓ
Method A = Action ProtocolChecker A

abbrev pub get : Method ProtocolChecker
get s = pure s s

abbrev pub put : ProtocolChecker → Method (Unit {0})
put s _ = pure tt s

abbrev pub when : Bool → Method (Unit {0}) → Method (Unit {0})
when test m = if test then m else skip

-- `notifyError`
unfoldable pub notify_error : Message → Method (Unit {0})
notify_error err = do
  s ← get
  if s.notify_eagerly
      then raise (logic_error err)
      else put (record s { errors = s.errors ++ err ∷ [] })

abbrev pub notify : Violation → Method (Unit {0})
notify v = notify_error (what v)

-- The first part of a request: the tests on `aborted` and `done`.
unfoldable pub check_request : Abort → Method (Unit {0})
check_request abort = do
  s ← get
  when (to_bool s.aborted || to_bool s.done) (do
    when (not (to_bool abort)) (notify requested_after_termination)
    when s.forbid_extra_requests (do
      when (to_bool s.aborted) (notify requested_after_abort)
      when (to_bool s.done) (notify requested_after_end)))

-- `if (!self->aborted) { self->aborted = abort; }`, and the number of the request.
unfoldable pub take_number : Abort → Method ℕ
take_number abort = do
  s ← get
  put (record s { aborted = if to_bool s.aborted then s.aborted else abort; i = next_u64 s.i })
  pure s.i

-- `std::map`'s `operator[]` with an assignment, `count` and lookup.
abbrev pub insert : ℕ → Bool → List (ℕ × Bool) → List (ℕ × Bool)
insert k v [] = (k, v) ∷ []
insert k v ((j, u) ∷ m) = if j == k then (k, v) ∷ m else (j, u) ∷ insert k v m

abbrev pub lookup : ℕ → List (ℕ × Bool) → Option Bool
lookup k [] = none
lookup k ((j, u) ∷ m) = if j == k then some u else lookup k m

-- `self->skipped[*i] = true`
unfoldable pub mark_skipped : ℕ → Method (Unit {0})
mark_skipped i = do s ← get; put (record s { skipped = insert i true s.skipped })

-- `std::shared_ptr<uint64_t> counter(new uint64_t(0))`
unfoldable pub new_counter : Method ℕ
new_counter = do
  s ← get
  put (record s { counters = s.counters ++ 0 ∷ [] })
  pure (length s.counters)

-- `(*counter)++`, and the value after it.
unfoldable pub bump_counter : ℕ → Method ℕ
bump_counter counter = do
  s ← get
  let c = next_u64 (get_or s.counters counter 0)
  put (record s { counters = set s.counters counter c })
  pure c

-- The tests on the order of the callbacks, and `latest`.
unfoldable pub check_order : ℕ → Method (Unit {0})
check_order i = do
  s ← get
  if ltb i s.latest
      then notify (invoked_after i s.latest)
      else if ltb (next_u64 s.latest) i
      then notify (invoked_before i (next_u64 s.latest))
      else put (record s { latest = i })

-- `if (!self->done) { self->done = done; }`, and the end that is passed on.
unfoldable pub record_done : Done → Method Done
record_done done = do
  s ← get
  let d = if to_bool s.done then s.done else done
  put (record s { done = d })
  pure d

-- The callback's closure up to the call of `cb`, whose first argument it returns.
unfoldable pub check_callback : ℕ → ℕ → Done → Method Done
check_callback i counter done = do
  s ← get
  when (not (to_bool done) && (to_bool s.aborted || to_bool s.done))
      (notify (returned_after_termination i))
  c ← bump_counter counter
  when (ltb 1 c) (notify (invoked_again i c))
  check_order i
  record_done done

-- One round of the loop in `Terminate`, and the loop from `k` on for `n` rounds.
abbrev unanswered : ℕ → List (ℕ × Bool) → Bool
unanswered k skipped = elim (lookup k skipped) [ none ↦ true | some b ↦ b ]

unfoldable pub report_unanswered : ℕ → ℕ → Method (Unit {0})
report_unanswered k zero = skip
report_unanswered k (suc n) = do
  s ← get
  when (unanswered k s.skipped) (notify (never_invoked k))
  report_unanswered (k + 1) n

-- `ProtocolChecker::Terminate`
unfoldable pub terminate : Method (List Message)
terminate = do
  s ← get
  let first = next_u64 s.latest
  when (ltb first s.i) (report_unanswered first (s.i - first))
  when (s.enforce_stream_termination && not (to_bool s.done) && not (to_bool s.aborted))
      (notify never_terminated)
  t ← get
  pure t.errors
