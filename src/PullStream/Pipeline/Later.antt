-- ===== src/PullStream/Pipeline/Later.antt =====
-- A collection (dk_pull/pull_stream/sinks/collect.h) of a source that may answer later, behind a
-- protocol checker.
use dk_pull.Base.{◌≡◌, ◌∙◌, List, Option}
use dk_pull.Base.Action.{Action, ◌>>◌}
use dk_pull.Base.Ref.{Ref, Apart}
use dk_pull.Types.EndOrError.{Done}
use dk_pull.Types.Stream.{Source, SourceCallback}
use dk_pull.Looper.{Looper}
use dk_pull.PullStream.Deferring.{Deferring, Spares}
use dk_pull.PullStream.Sinks.Drain.Later.{Leaving}
use dk_pull.PullStream.Sinks.Reduce.{State, Leftover}
use dk_pull.PullStream.Sinks.Collect.Gathers.{Reports}
use dk_pull.PullStream.ProtocolChecker.{ProtocolChecker}
use dk_pull.PullStream.ProtocolChecker.Transparent.{IsDone}
use dk_pull.PullStream.ProtocolChecker.Waiting.{Frames}

-- The source leaves the looper, the reduction and the checker alone.
abbrev pub LeavingAll {ℓ κ} :
    {W : Type ℓ} {X : Type κ} → Ref W Looper → Ref W X → Ref W ProtocolChecker → W → W → Type κ
LeavingAll looper self checker w w' = Leaving looper self w w' × (checker.get w' ≡ checker.get w)

module _ {ℓ κ} {W : Type ℓ} {X : Type κ} {looper : Ref W Looper} {self : Ref W X}
    {checker : Ref W ProtocolChecker} (looper_checker : Apart looper checker)
    (self_checker : Apart self checker) where
  leaving-Frames : Frames checker (LeavingAll looper self checker) (Leaving looper self)
  leaving-Frames = record {
    still = λ w w' (frame, same). same;
    around = λ s s' w w' ((looped, kept), same). (
      looper_checker.get-set_left s' w' ∙ looped ∙ looper_checker.get-set_left s w,
      self_checker.get-set_left s' w' ∙ kept ∙ self_checker.get-set_left s w,
    );
  }

module _ {ℓ κ μ ν} {W : Type ℓ} {T : Type κ} {source : Source W T}
    {deliver : SourceCallback W T → Action W (Unit {0})} {Left Waits : List T → W → Type μ}
    {Closed : W → Type μ} {e : Done} {looper : Ref W Looper}
    {self : Ref W (Option (State (List T)))} {checker : Ref W ProtocolChecker}
    (c : Deferring source deliver Left Waits Closed (LeavingAll looper self checker) e)
    (looper_spared : Spares looper Left Waits Closed) (self_spared : Spares self Left Waits Closed)
    (checker_spared : Spares checker Left Waits Closed) (apart : Apart looper self)
    (looper_checker : Apart looper checker) (self_checker : Apart self checker)
    (callback_leaves : Leftover W (List T)) (cb : SourceCallback W (List T))
    {Reported : List T → W → Type ν} (h : Reports cb looper Closed e Reported) where
  abbrev frames : Frames checker (LeavingAll looper self checker) (Leaving looper self)
  frames = leaving-Frames looper_checker self_checker

  abbrev Passed : List T → W → Type ν
  Passed vector w = Reported vector w × IsDone e (checker.get w)
