-- ===== src/PullStream/Sinks/Collect/Gathers.antt =====
-- `MakeCollect` (dk_pull/pull_stream/sinks/collect.h) on a conforming source.
use mathlib.Core.List.{foldl}
use dk_pull.Base.{
  ℕ, ◌<◌, ◌≡◌, refl, ◌∙◌, List, [], ◌∷◌, ◌++◌, append_assoc, append-nil, sym, length, Option, some,
}
use dk_pull.Base.Action.{ok, ◌>>◌}
use dk_pull.Base.Ref.{Ref, Apart}
use dk_pull.Types.EndOrError.{Done}
use dk_pull.Types.Stream.{Source, SourceCallback}
use dk_pull.Looper.{Looper, idle}
use dk_pull.PullStream.Conforming.{Conforming, Leaves}
use dk_pull.PullStream.Sinks.Reduce.{State, Leftover}
use dk_pull.PullStream.Sinks.Reduce.Steps.{Reduces}
use dk_pull.PullStream.Sinks.Reduce.Folds.{sink_folds}
use dk_pull.PullStream.Sinks.Collect.{reduction, create, sink}

abbrev pub snoc {κ} : {T : Type κ} → List T → T → List T
snoc l v = l ++ v ∷ []

pub foldl-snoc {κ} : {T : Type κ} (acc xs : List T) → foldl snoc acc xs ≡ acc ++ xs
foldl-snoc acc [] = sym (append-nil acc)
foldl-snoc acc (x ∷ xs) = foldl-snoc (acc ++ x ∷ []) xs ∙ append_assoc acc (x ∷ []) xs

-- What the callback of a collection does: it returns normally and leaves the looper alone.
-- `Reported vector w`: it has been given that vector.
pub record Reports {ℓ κ μ ν} {W : Type ℓ} {T : Type κ} (cb : SourceCallback W (List T))
    (looper : Ref W Looper) (Closed : W → Type μ) (e : Done) (Reported : List T → W → Type ν)
    : Type (ℓ ⊔ κ ⊔ μ ⊔ ν) where
  pub report :
      (vector : List T) (w : W)
      → Closed w
      → (w' : W) × (cb e vector w ≡ (ok tt, w'))
        × Reported vector w'
        × (looper.get w' ≡ looper.get w)
  pub reported_looper :
      (vector : List T) (l : Looper) (w : W) → Reported vector w → Reported vector (looper.set l w)

module _ {ℓ κ μ ν} {W : Type ℓ} {T : Type κ} {Closed : W → Type μ} {e : Done}
    {looper : Ref W Looper} (callback_leaves : Leftover W (List T)) (cb : SourceCallback W (List T))
    {Reported : List T → W → Type ν} (h : Reports cb looper Closed e Reported) where
  pub collect-Reduces : Reduces (reduction callback_leaves (some cb)) snoc looper Closed e Reported
  collect-Reduces = record {
    pure_reducer = λ a v w. refl;
    report = h.report;
    reported_looper = h.reported_looper;
  }

module _ {ℓ κ μ ν} {W : Type ℓ} {T : Type κ} {source : Source W T} {Left : List T → W → Type μ}
    {Closed : W → Type μ} {e : Done} {c : Conforming source Left Closed e} {looper : Ref W Looper}
    {self : Ref W (Option (State (List T)))} (looper_apart : Leaves looper c)
    (self_apart : Leaves self c) (apart : Apart looper self) (callback_leaves : Leftover W (List T))
    (cb : SourceCallback W (List T)) {Reported : List T → W → Type ν}
    (h : Reports cb looper Closed e Reported) where
  -- Whatever conforming source a collection is used on that leaves the looper and the reduction
  -- alone, a callback that returns and leaves the looper alone is called with all of the source's
  -- values in their order and with the end of the stream; the call returns and the looper is idle
  -- again. More fuel than there are values is enough.
  pub sink_gathers :
      (all : List T) (fuel : ℕ) (w : W)
      → length all < fuel
      → Left all w
      → (w' : W) × ((create self >> sink callback_leaves (some cb) self looper fuel source) w
          ≡ (ok tt, w'))
        × Reported all w'
        × (looper.get w' ≡ idle)
  unfolding sink
  sink_gathers all fuel w lt left =
      let (w', run, told, quiet) =
        sink_folds looper_apart self_apart apart (reduction callback_leaves (some cb))
          (collect-Reduces callback_leaves cb h) [] all fuel w lt left in
      (w', run, rw (foldl-snoc [] all) at told, quiet)
