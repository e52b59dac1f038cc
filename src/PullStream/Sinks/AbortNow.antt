-- ===== src/PullStream/Sinks/AbortNow.antt =====
-- `MakeAbortNowSink` (dk_pull/pull_stream/sinks/abort_now_sink.h).
use dk_pull.Base.{Option}
use dk_pull.Types.EndOrError.{ended}
use dk_pull.Types.Stream.{SourceCallback, Sink}

module _ {ℓ κ} {W : Type ℓ} {T : Type κ} where
  unfoldable pub make_abort_now_sink : Option (SourceCallback W T) → Sink W T
  make_abort_now_sink cb source = source ended cb
