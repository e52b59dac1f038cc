-- ===== src/PullStream/Deferring.antt =====
-- What a source that may answer later promises to its client (dk_pull/types/source.h): it answers a
-- request at once, or keeps the callback and calls it later, once.
use dk_pull.Base.{List, [], ◌∷◌, some, ◌≡◌, true}
use dk_pull.Base.Action.{Action, ok}
use dk_pull.Base.Ref.{Ref}
use dk_pull.Types.EndOrError.{Done, going, to_bool}
use dk_pull.Types.Stream.{Source, SourceCallback}

-- How a callback is called when the values `xs` are left: with the first of them, or with the end.
-- In between the source changes the world, but not what it shares with no one: `Frame w w'`.
pub data Reply {ℓ κ μ φ} {W : Type ℓ} {T : Type κ} (act : SourceCallback W T → Action W (Unit {0}))
    (Left : List T → W → Type μ) (Closed : W → Type μ) (Frame : W → W → Type φ) (e : Done)
    (xs : List T) (w : W) : Type (ℓ ⊔ κ ⊔ μ ⊔ φ) where
  gives :
      (x : T) (rest : List T) (w' : W)
      → xs ≡ x ∷ rest
      → ((cb : SourceCallback W T) → act cb w ≡ cb going x w')
      → Left rest w'
      → Frame w w'
      → Reply act Left Closed Frame e xs w
  ends :
      (v : T) (w' : W)
      → xs ≡ []
      → ((cb : SourceCallback W T) → act cb w ≡ cb e v w')
      → Closed w'
      → Frame w w'
      → Reply act Left Closed Frame e xs w

-- What comes of a request: a reply at once, or later. `Waits xs w`: a callback is kept, and the
-- values `xs` are left, the one to answer with included.
pub data Request {ℓ κ μ φ} {W : Type ℓ} {T : Type κ} (source : Source W T)
    (Left Waits : List T → W → Type μ) (Closed : W → Type μ) (Frame : W → W → Type φ) (e : Done)
    (xs : List T) (w : W) : Type (ℓ ⊔ κ ⊔ μ ⊔ φ) where
  answers :
      Reply (λ cb. source going (some cb)) Left Closed Frame e xs w
      → Request source Left Waits Closed Frame e xs w
  waits :
      (w' : W)
      → ((cb : SourceCallback W T) → source going (some cb) w ≡ (ok tt, w'))
      → Waits xs w'
      → Frame w w'
      → Request source Left Waits Closed Frame e xs w

-- `deliver cb`: what happens when the source calls the callback `cb` that it kept.
pub record Deferring {ℓ κ μ φ} {W : Type ℓ} {T : Type κ} (source : Source W T)
    (deliver : SourceCallback W T → Action W (Unit {0})) (Left Waits : List T → W → Type μ)
    (Closed : W → Type μ) (Frame : W → W → Type φ) (e : Done) : Type (ℓ ⊔ κ ⊔ μ ⊔ φ) where
  pub over : to_bool e ≡ true
  pub request : (xs : List T) (w : W) → Left xs w → Request source Left Waits Closed Frame e xs w
  pub reply : (xs : List T) (w : W) → Waits xs w → Reply deliver Left Closed Frame e xs w

-- The source and the object that `r` points to do not meddle with one another.
pub record Spares {ℓ κ μ λ'} {W : Type ℓ} {T : Type κ} {X : Type λ'} (r : Ref W X)
    (Left Waits : List T → W → Type μ) (Closed : W → Type μ) : Type (ℓ ⊔ κ ⊔ μ ⊔ λ') where
  pub left : (xs : List T) (x : X) (w : W) → Left xs w → Left xs (r.set x w)
  pub waits : (xs : List T) (x : X) (w : W) → Waits xs w → Waits xs (r.set x w)
  pub closed : (x : X) (w : W) → Closed w → Closed (r.set x w)
