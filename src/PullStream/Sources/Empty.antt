-- ===== src/PullStream/Sources/Empty.antt =====
-- `MakeEmpty` (dk_pull/pull_stream/sources/empty.h). It neither reads its abort argument nor
-- tests its callback.
use dk_pull.Types.EndOrError.{ended}
use dk_pull.Types.Stream.{Source, invoke}

module _ {ℓ κ} {W : Type ℓ} {T : Type κ} where
  unfoldable pub make_empty : T → Source W T
  make_empty default abort cb = invoke cb ended default
