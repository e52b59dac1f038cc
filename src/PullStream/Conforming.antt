-- ===== src/PullStream/Conforming.antt =====
-- What a source that answers at once promises to its client (dk_pull/types/source.h), with no
-- word of how it does so: the values that are left, what one request does to the world before
-- the callback is called, and how the stream ends.
pub mod Values
pub mod Count
pub mod Empty
use dk_pull.Base.{List, [], ◌∷◌, some, none, ◌≡◌, true}
use dk_pull.Base.Action.{ok}
use dk_pull.Base.Ref.{Ref}
use dk_pull.Types.EndOrError.{Abort, Done, going, to_bool}
use dk_pull.Types.Stream.{Source, SourceCallback}

-- `Left xs w`: in the world `w` the source is open and has the values `xs` to give. `Closed w`: it
-- has ended. `e` is what it ends with.
pub record Conforming {ℓ κ μ} {W : Type ℓ} {T : Type κ} (source : Source W T)
    (Left : List T → W → Type μ) (Closed : W → Type μ) (e : Done) : Type (ℓ ⊔ κ ⊔ μ) where
  pub advance : W → W
  pub finish : W → W
  pub last : T
  pub ends : to_bool e ≡ true
  pub give :
      (x : T) (xs : List T) (w : W) (cb : SourceCallback W T)
      → Left (x ∷ xs) w
      → source going (some cb) w ≡ cb going x (advance w)
  pub give_left : (x : T) (xs : List T) (w : W) → Left (x ∷ xs) w → Left xs (advance w)
  pub end :
      (w : W) (cb : SourceCallback W T)
      → Left [] w
      → source going (some cb) w ≡ cb e last (finish w)
  pub end_closed : (w : W) → Left [] w → Closed (finish w)

-- A source that can be aborted at any time: it answers an abort with that very abort and changes
-- nothing, and it may be aborted without a callback.
pub record Abortable {ℓ κ} {W : Type ℓ} {T : Type κ} (source : Source W T) : Type (ℓ ⊔ κ) where
  pub default : T
  pub answers :
      (abort : Abort)
      → to_bool abort ≡ true
      → (w : W) (cb : SourceCallback W T) → source abort (some cb) w ≡ cb abort default w
  pub silent : (abort : Abort) → to_bool abort ≡ true → (w : W) → source abort none w ≡ (ok tt, w)

-- The source and the object that `r` points to do not meddle with one another.
pub record Leaves {ℓ κ μ λ'} {W : Type ℓ} {T : Type κ} {X : Type λ'} {source : Source W T}
    {Left : List T → W → Type μ} {Closed : W → Type μ} {e : Done} (r : Ref W X)
    (c : Conforming source Left Closed e) : Type (ℓ ⊔ κ ⊔ μ ⊔ λ') where
  pub set_left : (xs : List T) (x : X) (w : W) → Left xs w → Left xs (r.set x w)
  pub set_closed : (x : X) (w : W) → Closed w → Closed (r.set x w)
  pub get_advance : (x : T) (xs : List T) (w : W) → Left (x ∷ xs) w → r.get (c.advance w) ≡ r.get w
  pub get_finish : (w : W) → Left [] w → r.get (c.finish w) ≡ r.get w
