-- ===== src/PullStream/Conforming/Empty.antt =====
-- `MakeEmpty` (dk_pull/pull_stream/sources/empty.h) as a conforming source.
use dk_pull.Base.{List, [], ◌≡◌, refl}
use dk_pull.Base.Ref.{Ref}
use dk_pull.Types.EndOrError.{ended}
use dk_pull.PullStream.Sources.Empty.{make_empty}
use dk_pull.PullStream.Conforming.{Conforming, Leaves}

-- At any time it has nothing left, and is as good as ended.
abbrev pub Always {ℓ κ} : {W : Type ℓ} → Type κ → W → Type κ
Always T w = Unit {κ}

module _ {ℓ κ} {W : Type ℓ} {T : Type κ} where
  abbrev pub Nothing : List T → W → Type κ
  Nothing xs w = xs ≡ []

  -- `MakeEmpty` ends at once with no error.
  unfoldable pub empty-Conforming :
      (default : T) → Conforming {W = W} (make_empty default) Nothing (Always T) ended
  unfolding make_empty
  empty-Conforming default = record {
    advance = λ w. w;
    finish = λ w. w;
    last = default;
    ends = refl;
    give = λ x xs w cb h. absurd (cc);
    give_left = λ x xs w h. absurd (cc);
    end = λ w cb h. refl;
    end_closed = λ w h. tt;
  }

  module _ {λ'} {X : Type λ'} (r : Ref W X) where
    pub empty-Leaves : (default : T) → Leaves r (empty-Conforming default)
    unfolding empty-Conforming
    empty-Leaves default = record {
      set_left = λ xs x w h. h;
      set_closed = λ x w h. h;
      get_advance = λ x xs w h. refl;
      get_finish = λ w h. refl;
    }
