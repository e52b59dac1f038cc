-- ===== src/PullStream/Conforming/Values.antt =====
-- `Values` (dk_pull/pull_stream/sources/values.h) as a conforming source.
use dk_pull.Base.{List, [], ◌∷◌, ◌≡◌, refl, sym, ap, ◌∙◌, some}
use dk_pull.Base.Ref.{Ref, Apart}
use dk_pull.Types.EndOrError.{ended, going}
use dk_pull.Types.Stream.{SourceCallback}
use dk_pull.PullStream.Sources.Values.{Values, source}
use dk_pull.PullStream.Conforming.{Conforming, Leaves, Abortable}

abbrev rest_of {κ} : {T : Type κ} → List T → List T
rest_of [] = []
rest_of (x ∷ xs) = xs

module _ {ℓ κ} {W : Type ℓ} {T : Type κ} (self : Ref W (Values T)) where
  abbrev pub Holds : List T → W → Type κ
  Holds xs w = (self.get w).values ≡ xs

  abbrev pub IsEmpty : W → Type κ
  IsEmpty w = (self.get w).values ≡ []

  abbrev pop : W → W
  pop w = self.set (record { values = rest_of (self.get w).values }) w

  pub pop-cons :
      (x : T) (xs : List T) (w : W)
      → (self.get w).values ≡ x ∷ xs
      → pop w ≡ self.set (record { values = xs }) w
  pop-cons x xs w h = ap (λ l. self.set (record { values = rest_of l }) w) h

  pub give_front :
      (default x : T) (xs : List T) (w : W) (cb : SourceCallback W T)
      → (self.get w).values ≡ x ∷ xs
      → source self default going (some cb) w ≡ cb going x (self.set (record { values = xs }) w)
  unfolding source
  give_front default x xs w cb h = rw h

  -- `Values` gives the elements that it holds, in order, and then ends with no error.
  unfoldable pub values-Conforming :
      (default : T) → Conforming (source self default) Holds IsEmpty ended
  unfolding source
  values-Conforming default = record {
    advance = pop;
    finish = λ w. w;
    last = default;
    ends = refl;
    give =
        λ x xs w cb h. give_front default x xs w cb h ∙ ap (cb going x) (sym (pop-cons x xs w h));
    give_left = λ x xs w h. rw (pop-cons x xs w h, self.get-set);
    end = λ w cb h. rw h;
    end_closed = λ w h. h;
  }

  pub values-Abortable : (default : T) → Abortable (source self default)
  unfolding source
  values-Abortable default = record {
    default = default;
    answers = λ abort e w cb. rw e refl;
    silent = λ abort e w. rw e refl;
  }

  module _ {λ'} {X : Type λ'} (r : Ref W X) (a : Apart r self) where
    pub values-Leaves : (default : T) → Leaves r (values-Conforming default)
    unfolding values-Conforming
    values-Leaves default = record {
      set_left = λ xs x w h. rw (a.get-set_right) h;
      set_closed = λ x w h. rw (a.get-set_right) h;
      get_advance = λ x xs w h. a.get-set_left _ w;
      get_finish = λ w h. refl;
    }
