-- ===== src/PullStream/Pull.antt =====
-- The `Pull` overloads and `Link` (dk_pull/pull_stream/pull.h) and `MakeDuplex`
-- (dk_pull/types/duplex.h). `Link` calls members of references through `->`, which no compiler
-- takes when the template is used; it is modelled as what it means, the calls of those members.
use dk_pull.Base.Action.{Action, ◌>>◌}
use dk_pull.Types.Stream.{Source, Sink, Through, Duplex}

module _ {ℓ κ} {W : Type ℓ} {T : Type κ} where
  -- `Pull(source, sink)`
  unfoldable pub pull_sink : Source W T → Sink W T → Action W (Unit {0})
  pull_sink source sink = sink source

module _ {ℓ κ λ'} {W : Type ℓ} {T1 : Type κ} {T2 : Type λ'} where
  -- `Pull(source, through)`
  unfoldable pub pull_source : Source W T1 → Through W T1 T2 → Source W T2
  pull_source source through = through source

  -- `Pull(source, through, sink)`
  unfoldable pub pull_all : Source W T1 → Through W T1 T2 → Sink W T2 → Action W (Unit {0})
  unfolding pull_sink pull_source
  pull_all source through sink = pull_sink (pull_source source through) sink

  -- `MakeDuplex`
  unfoldable pub make_duplex : Source W T1 → Sink W T2 → Duplex W T1 T2
  make_duplex source sink = record {
    source_side = record { source = source };
    sink_side = record { sink = sink };
  }

  -- `Link`
  unfoldable pub link : Duplex W T1 T2 → Duplex W T2 T1 → Action W (Unit {0})
  unfolding pull_sink
  link lhs rhs = do
    pull_sink lhs.source_side.source rhs.sink_side.sink
    pull_sink rhs.source_side.source lhs.sink_side.sink
