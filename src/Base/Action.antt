-- ===== src/Base/Action.antt =====
-- Effects. A call runs on the whole state of the program, the world, and ends in one of four ways;
-- what it wrote before it threw stays written.
use Prim.Native.Nat.{ℕ}
use Prim.Native.String.{String}
use mathlib.Core.List.{List}
use mathlib.Core.Path.{◌≡◌, refl}

-- What a `std::stringstream` is fed: text and decimal numbers.
pub data Piece : Type 0 where
  text : String → Piece
  number : ℕ → Piece

abbrev pub Message : Type 0
Message = List Piece

-- The exceptions that the code throws: `std::logic_error`, and what a call of an empty
-- `std::function` throws.
pub data Exception : Type 0 where
  logic_error : Message → Exception
  bad_function_call : Exception

-- `fatal` is a failed `CHECK` or a `LOG(FATAL)`, which abort the process. `out_of_fuel` ends a
-- loop of the model that was given too little fuel.
pub data Result {ℓ} (A : Type ℓ) : Type ℓ where
  ok : A → Result A
  throw : Exception → Result A
  fatal : Result A
  out_of_fuel : Result A

abbrev pub Action {ℓ κ} : Type ℓ → Type κ → Type (ℓ ⊔ κ)
Action W A = W → Result A × W

-- What goes on after a result.
abbrev pub and_then {ℓ κ λ'} :
    {W : Type ℓ} {A : Type κ} {B : Type λ'} → Result A × W → (A → Action W B) → Result B × W
and_then (ok a, w) f = f a w
and_then (throw e, w) f = (throw e, w)
and_then (fatal, w) f = (fatal, w)
and_then (out_of_fuel, w) f = (out_of_fuel, w)

infixl 5 ◌>>=◌ ◌>>◌
abbrev pub ◌>>=◌ {ℓ κ λ'} :
    {W : Type ℓ} {A : Type κ} {B : Type λ'} → Action W A → (A → Action W B) → Action W B
◌>>=◌ m f w = and_then (m w) f

abbrev pub ◌>>◌ {ℓ κ} : {W : Type ℓ} {B : Type κ} → Action W (Unit {0}) → Action W B → Action W B
m >> k = m >>= λ _. k

module _ {ℓ κ} {W : Type ℓ} {A : Type κ} where
  abbrev pub pure : A → Action W A
  pure a w = (ok a, w)

  abbrev pub raise : Exception → Action W A
  raise e w = (throw e, w)

  -- `LOG(FATAL)`
  abbrev pub abort_process : Action W A
  abort_process w = (fatal, w)

abbrev pub skip {ℓ} : {W : Type ℓ} → Action W (Unit {0})
skip w = (ok tt, w)

-- A call that returned went on after a result.
pub and_then-ok {ℓ κ λ'} :
    {W : Type ℓ} {A : Type κ} {B : Type λ'} (p : Result A × W) (f : A → Action W B) {b : B} {w : W}
    → and_then p f ≡ (ok b, w)
    → (a : A) × (w' : W) × (p ≡ (ok a, w')) × (f a w' ≡ (ok b, w))
and_then-ok (ok a, w') f h = (a, w', refl, h)
and_then-ok (throw e, w') f h = absurd (cc)
and_then-ok (fatal, w') f h = absurd (cc)
and_then-ok (out_of_fuel, w') f h = absurd (cc)
