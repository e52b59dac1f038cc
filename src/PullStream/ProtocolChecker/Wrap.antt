-- ===== src/PullStream/ProtocolChecker/Wrap.antt =====
-- `ProtocolChecker::Through`: the checker in front of a source. The inner closure captures the
-- checker, the number of the request and the cell of its counter.
use dk_pull.Base.{ℕ, Option, none, some}
use dk_pull.Base.Action.{Action, skip, ◌>>=◌, ◌>>◌}
use dk_pull.Base.Ref.{Ref, read, zoom}
use dk_pull.Types.EndOrError.{Abort}
use dk_pull.Types.Stream.{Source, SourceCallback, Through, ThroughContext}
use dk_pull.PullStream.ProtocolChecker.{
  ProtocolChecker, check_request, take_number, mark_skipped, new_counter, check_callback,
}

module _ {ℓ κ} {W : Type ℓ} {T : Type κ} where
  -- `ProtocolChecker::noop`
  abbrev pub noop : SourceCallback W T
  noop done v = skip

  -- The closure that a request passes to the source.
  abbrev pub wrapped : Ref W ProtocolChecker → ℕ → ℕ → SourceCallback W T → SourceCallback W T
  wrapped self i counter cb done v = do d ← zoom self (check_callback i counter done); cb d v

  -- The request behind the checks: with a callback it passes `abort` on, without one what the
  -- checker has recorded.
  abbrev pub forward :
      Ref W ProtocolChecker
      → Source W T
      → Abort
      → Option (SourceCallback W T)
      → ℕ
      → Action W (Unit {0})
  forward self source abort none i = do
    zoom self (mark_skipped i)
    s ← read self
    source s.aborted (some noop)
  forward self source abort (some cb) i = do
    counter ← zoom self new_counter
    source abort (some (wrapped self i counter cb))

  unfoldable pub through : Ref W ProtocolChecker → Through W T T
  through self source abort cb = do
    zoom self (check_request abort)
    i ← zoom self (take_number abort)
    forward self source abort cb i

  -- `ProtocolChecker` as a through.
  abbrev pub context : Ref W ProtocolChecker → ThroughContext W T T
  context self = record { through = through self }
