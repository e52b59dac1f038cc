-- ===== src/Looper.antt =====
-- `Looper` (dk_pull/looper/looper.h and looper.cc): it turns the recursion of a function that calls
-- itself through `next` into a loop. `self` points to the looper object; all the `next` closures of
-- one looper capture only `self`, so they are one function.
pub mod Rule
pub mod Endless
pub mod Later
pub mod Deferred
pub mod Scripts
pub mod Keeps
pub mod Depth
pub mod Requests
pub mod Served
pub mod Throws
use dk_pull.Base.{ℕ, zero, suc, Bool, true, false, if◌then◌else◌}
use dk_pull.Base.Action.{Action, out_of_fuel, skip, ◌>>=◌, ◌>>◌}
use dk_pull.Base.Ref.{Ref, read, write, modify}

pub record Looper : Type 0 where
  pub next_called : Bool
  pub looper_function_returned : Bool

-- The members' initial values.
abbrev pub idle : Looper
idle = record { next_called = false; looper_function_returned = true }

module _ {ℓ} (W : Type ℓ) where
  abbrev pub LooperFunction : Type ℓ
  LooperFunction = Action W (Unit {0}) → Action W (Unit {0})

module _ {ℓ} {W : Type ℓ} (self : Ref W Looper) where
  -- `Looper::Create` and the members of a new object, at the place where it is allocated. A function
  -- is never null here, so that the constructor's check of it always passes.
  abbrev pub create : Action W (Unit {0})
  create = write self idle

  -- The closure that `makeNext` returns, around the loop that it holds.
  unfoldable pub enter : Action W (Unit {0}) → Action W (Unit {0})
  enter loop = do
    modify self (λ s. record s { next_called = true })
    s ← read self
    if s.looper_function_returned
        then (do
          modify self (λ t. record t { looper_function_returned = false })
          loop
          modify self (λ t. record t { looper_function_returned = true }))
        else skip

  module _ (looper_function : LooperFunction W) where
    -- `while (self->nextCalled) { … }`. A round hands `looper_function` a fresh `next`.
    unfoldable pub loop : ℕ → Action W (Unit {0})
    loop zero w = (out_of_fuel, w)
    loop (suc fuel) w = elim (self.get w).next_called [
      | true ↦
          (do
            modify self (λ s. record s { next_called = false })
            looper_function (enter (loop fuel))
            loop fuel)
            w
      | false ↦ skip w
    ]

    unfoldable pub make_next : ℕ → Action W (Unit {0})
    make_next fuel = enter (loop fuel)

    -- `Looper::Start`
    unfoldable pub start : ℕ → Action W (Unit {0})
    unfolding make_next
    start fuel = looper_function (make_next fuel)
