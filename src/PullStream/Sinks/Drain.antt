-- ===== src/PullStream/Sinks/Drain.antt =====
-- `Drain` (dk_pull/pull_stream/sinks/drain.h). `looper` points to the looper object that this use
-- of the sink creates, and `fuel` bounds the rounds of that looper's loop.
pub mod Visits
pub mod Endless
pub mod Later
pub mod Throws
use dk_pull.Base.{ℕ, Option, none, some, if◌then◌else◌}
use dk_pull.Base.Action.{Action, skip, ◌>>=◌, ◌>>◌}
use dk_pull.Base.Ref.{Ref}
use dk_pull.Types.EndOrError.{Done, going, to_bool}
use dk_pull.Types.Stream.{Source, SourceCallback, Sink, SinkContext}
use dk_pull.Looper
use dk_pull.Looper.{Looper, LooperFunction}

module _ {ℓ} (W : Type ℓ) where
  abbrev pub OnDone : Type ℓ
  OnDone = Done → Action W (Unit {0})

  abbrev pub OnValue {κ} : Type κ → Type (ℓ ⊔ κ)
  OnValue T = T → Action W (Unit {0})

  pub record Drain {κ} (T : Type κ) : Type (ℓ ⊔ κ) where
    pub on_value : OnValue T
    pub on_done : OnDone

module _ {ℓ κ} {W : Type ℓ} {T : Type κ} where
  abbrev value_or_noop : Option (OnValue W T) → OnValue W T
  value_or_noop none v = skip
  value_or_noop (some f) v = f v

module _ {ℓ} {W : Type ℓ} where
  abbrev done_or_noop : Option (OnDone W) → OnDone W
  done_or_noop none e = skip
  done_or_noop (some f) e = f e

module _ {ℓ κ} {W : Type ℓ} {T : Type κ} where
  -- `Drain::Create` and the constructor, which replaces an empty function.
  abbrev pub create : Option (OnValue W T) → Option (OnDone W) → Drain W T
  create on_value on_done = record {
    on_value = value_or_noop on_value;
    on_done = done_or_noop on_done;
  }

  -- The callback that each request passes to the source.
  abbrev pub on_answer : Drain W T → Action W (Unit {0}) → SourceCallback W T
  on_answer self next e val = if to_bool e then self.on_done e else (do self.on_value val; next)

  -- The function that the looper runs: one request.
  unfoldable pub request : Drain W T → Source W T → LooperFunction W
  request self source next = source going (some (on_answer self next))

  -- `Drain::Sink`
  unfoldable pub sink : Drain W T → Ref W Looper → ℕ → Sink W T
  sink self looper fuel source = do
    Looper.create looper
    Looper.start looper (request self source) fuel

  -- `Drain` as what has a sink.
  abbrev pub context : Drain W T → Ref W Looper → ℕ → SinkContext W T
  context self looper fuel = record { sink = sink self looper fuel }
