-- ===== src/PullStream/Sinks/Reduce.antt =====
-- `Reduce` (dk_pull/pull_stream/sinks/reduce.h). The object is `none` once its last owner has let
-- it go: the two functions of its drain hold only a weak pointer to it. To pass the accumulator as an
-- rvalue reference moves nothing: what is left of it is up to the function that is called.
pub mod Steps
pub mod Folds
pub mod Later
pub mod Throws
use dk_pull.Base.{ℕ, Bool, true, false, Option, none, some}
use dk_pull.Base.Action.{Action, pure, abort_process, ◌>>=◌, ◌>>◌}
use dk_pull.Base.Ref.{Ref, read, write}
use dk_pull.Types.EndOrError.{Done}
use dk_pull.Types.Stream.{SourceCallback, Sink, SinkContext, invoke}
use dk_pull.Looper.{Looper}
use dk_pull.PullStream.Sinks.Drain

pub record State {ℓ} (A : Type ℓ) : Type ℓ where
  pub has_drain : Bool  -- `drain` is not `nullptr`
  pub accumulator : A

-- `Reduce::Reducer` and `Reduce::Callback`
abbrev pub Reducer {ℓ κ μ} : Type ℓ → Type κ → Type μ → Type (ℓ ⊔ κ ⊔ μ)
Reducer W A T = A → T → Action W A

abbrev pub ReduceCallback {ℓ κ} : Type ℓ → Type κ → Type (ℓ ⊔ κ)
ReduceCallback W A = SourceCallback W A

-- What a function for the end leaves of the accumulator that it gets a reference to, whether it
-- returns or throws; it may depend on the world in which it is called.
abbrev pub Leftover {ℓ κ} : Type ℓ → Type κ → Type (ℓ ⊔ κ)
Leftover W A = Done → A → W → A

-- The two functions, with what each leaves of the accumulator that it gets a reference to.
pub record Reduce {ℓ κ μ} (W : Type ℓ) (A : Type κ) (T : Type μ) : Type (ℓ ⊔ κ ⊔ μ) where
  pub reducer : Reducer W A T
  pub callback : Option (ReduceCallback W A)
  pub reducer_leaves : A → T → W → A
  pub callback_leaves : Leftover W A

module _ {ℓ κ} {W : Type ℓ} {A : Type κ} where
  -- `Reduce::Create` and the constructor.
  abbrev pub create : Ref W (Option (State A)) → A → Action W (Unit {0})
  create self accumulator =
      write self (some (record { has_drain = false; accumulator = accumulator }))

  -- The last owner lets the object go.
  abbrev pub release : Ref W (Option (State A)) → Action W (Unit {0})
  release self = write self none

  abbrev pub or_check : Option (State A) → Action W (State A)
  or_check none = abort_process
  or_check (some s) = pure s

  -- `weak_self.lock()` and `CHECK(self != nullptr)`
  abbrev pub lock : Ref W (Option (State A)) → Action W (State A)
  lock self = do o ← read self; or_check o

  -- `CHECK(self->drain == nullptr)`, and the assignment of the new drain.
  abbrev claim_drain : Ref W (Option (State A)) → State A → Action W (Unit {0})
  claim_drain self s = elim s.has_drain [
    | true ↦ abort_process
    | false ↦ write self (some (record s { has_drain = true }))
  ]

  -- The accumulator is passed as an rvalue reference to a function that leaves that of it.
  abbrev lend : Ref W (Option (State A)) → State A → (W → A) → Action W (Unit {0})
  lend self s leaves w = write self (some (record s { accumulator = leaves w })) w

  -- An empty function takes nothing.
  abbrev pub remains : Option (ReduceCallback W A) → Leftover W A → Leftover W A
  remains none leaves done a w = a
  remains (some cb) leaves done a w = leaves done a w

module _ {ℓ κ μ} {W : Type ℓ} {A : Type κ} {T : Type μ} (r : Reduce W A T)
    (self : Ref W (Option (State A))) where
  -- The drain's function for a value.
  unfoldable pub on_value : T → Action W (Unit {0})
  on_value v = do
    s ← lock self
    lend self s (r.reducer_leaves s.accumulator v)
    acc ← r.reducer s.accumulator v
    write self (some (record s { accumulator = acc }))

  -- The drain's function for the end.
  unfoldable pub on_done : Done → Action W (Unit {0})
  on_done done = do
    s ← lock self
    lend self s (remains r.callback r.callback_leaves done s.accumulator)
    invoke r.callback done s.accumulator

  -- `Reduce::Sink`
  unfoldable pub sink : Ref W Looper → ℕ → Sink W T
  sink looper fuel source = do
    s ← lock self
    claim_drain self s
    Drain.sink (Drain.create (some on_value) (some on_done)) looper fuel source

  -- `Reduce` as what has a sink.
  abbrev pub context : Ref W Looper → ℕ → SinkContext W T
  context looper fuel = record { sink = sink looper fuel }
