-- ===== src/Base/Ref.antt =====
-- A pointer to an object of the world. A closure that captures `self` captures such a reference,
-- and two references are apart where they point to different objects.
use mathlib.Core.Path.{◌≡◌, refl}
use dk_pull.Base.Action.{Action, Result, ok, throw, fatal, out_of_fuel, and_then, ◌>>=◌}

pub record Ref {ℓ κ} (W : Type ℓ) (X : Type κ) : Type (ℓ ⊔ κ) where
  pub get : W → X
  pub set : X → W → W
  pub get-set : (x : X) (w : W) → get (set x w) ≡ x
  pub set-set : (x y : X) (w : W) → set x (set y w) ≡ set x w
  pub set-get : (w : W) → set (get w) w ≡ w

pub record Apart {ℓ κ λ'} {W : Type ℓ} {X : Type κ} {Y : Type λ'} (r : Ref W X) (s : Ref W Y)
    : Type (ℓ ⊔ κ ⊔ λ') where
  pub get-set_left : (y : Y) (w : W) → r.get (s.set y w) ≡ r.get w
  pub get-set_right : (x : X) (w : W) → s.get (r.set x w) ≡ s.get w

module _ {ℓ κ} {W : Type ℓ} {X : Type κ} where
  abbrev pub read : Ref W X → Action W X
  read r w = (ok (r.get w), w)

  abbrev pub write : Ref W X → X → Action W (Unit {0})
  write r x w = (ok tt, r.set x w)

  -- A method of the object, as a call that runs on the whole world.
  abbrev pub zoom {λ'} : {A : Type λ'} → Ref W X → Action X A → Action W A
  zoom r m w = let (result, x) = m (r.get w) in (result, r.set x w)

  -- A write that depends on what is there.
  abbrev pub modify : Ref W X → (X → X) → Action W (Unit {0})
  modify r f w = (ok tt, r.set (f (r.get w)) w)

-- Ways to go on that agree everywhere.
pub and_then-ext {ℓ κ λ'} :
    {W : Type ℓ} {A : Type κ} {B : Type λ'} (p : Result A × W) (f g : A → Action W B)
    → ((a : A) (w : W) → f a w ≡ g a w)
    → and_then p f ≡ and_then p g
and_then-ext (ok a, w) f g h = h a w
and_then-ext (throw e, w) f g h = refl
and_then-ext (fatal, w) f g h = refl
and_then-ext (out_of_fuel, w) f g h = refl

zoom-parts {ℓ κ λ' μ ν} :
    {W : Type ℓ} {X : Type κ} {A : Type λ'} {B : Type μ} {C : Type ν} (r : Ref W X)
    (p : Result A × X) (f : A → Action X B) (k : B → Action W C) (w : W)
    → and_then ((and_then p f).0, r.set (and_then p f).1 w) k
      ≡ and_then (p.0, r.set p.1 w) (λ a. zoom r (f a) >>= k)
zoom-parts r (ok a, x) f k w = rw (r.get-set, r.set-set) refl
zoom-parts r (throw e, x) f k w = refl
zoom-parts r (fatal, x) f k w = refl
zoom-parts r (out_of_fuel, x) f k w = refl

-- A method in two parts is the one part after the other.
pub zoom-then {ℓ κ λ' μ ν} :
    {W : Type ℓ} {X : Type κ} {A : Type λ'} {B : Type μ} {C : Type ν} (r : Ref W X) (m : Action X A)
    (f : A → Action X B) (k : B → Action W C) (w : W)
    → (zoom r (m >>= f) >>= k) w ≡ (zoom r m >>= λ a. zoom r (f a) >>= k) w
zoom-then r m f k w = zoom-parts r (m (r.get w)) f k w
