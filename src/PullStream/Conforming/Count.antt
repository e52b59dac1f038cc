-- ===== src/PullStream/Conforming/Count.antt =====
-- `Count` (dk_pull/pull_stream/sources/count.cc) as a conforming source.
use dk_pull.Base.{
  ℕ, zero, suc, ◌+◌, ◌<◌, List, [], ◌∷◌, some, ◌≡◌, refl, ap, length, arith, u64_mod, next_u64,
  next_u64_exact, ltb-false, ltb-true,
}
use dk_pull.Base.Ref.{Ref, Apart}
use dk_pull.Types.EndOrError.{ended, going}
use dk_pull.Types.Stream.{SourceCallback}
use dk_pull.PullStream.Sources.Count.{Count, source}
use dk_pull.PullStream.Conforming.{Conforming, Leaves, Abortable}

-- `n` numbers from `i` on.
abbrev pub counting : ℕ → ℕ → List ℕ
counting i zero = []
counting i (suc n) = i ∷ counting (i + 1) n

pub length-counting : (i n : ℕ) → length (counting i n) ≡ n
length-counting i zero = refl
length-counting i (suc n) = ap suc (length-counting (i + 1) n)

module _ {ℓ} {W : Type ℓ} (self : Ref W Count) where
  -- The numbers from `i` to the maximum are left.
  abbrev pub Counts : List ℕ → W → Type 0
  Counts xs w =
      (n : ℕ) × (xs ≡ counting (self.get w).i n)
      × ((self.get w).i + n ≡ (self.get w).maximum + 1)
      × ((self.get w).maximum + 1 < u64_mod)

  abbrev pub IsPast : W → Type 0
  IsPast w = (self.get w).maximum < (self.get w).i

  abbrev bump : Count → Count
  bump s = record s { i = next_u64 s.i }

  abbrev next : W → W
  next w = self.set (bump (self.get w)) w

  -- The numbers left, taken apart: the first is the member `i`.
  counting_cons :
      (s : Count) (x : ℕ) (xs : List ℕ) (n : ℕ)
      → x ∷ xs ≡ counting s.i n
      → (m : ℕ) × (n ≡ suc m) × (x ≡ s.i) × (xs ≡ counting (s.i + 1) m)
  counting_cons s x xs zero h = absurd (cc)
  counting_cons s x xs (suc m) h = (m, refl, cc, cc)

  counting_nil : (i n : ℕ) → [] ≡ counting i n → n ≡ 0
  counting_nil i zero h = refl
  counting_nil i (suc n) h = absurd (cc)

  pub source_open :
      (w : W) (cb : SourceCallback W ℕ)
      → (self.get w).i < (self.get w).maximum + 1
      → source self going (some cb) w ≡ cb going (self.get w).i (next w)
  unfolding source
  source_open w cb h = rw (ltb-false (self.get w).maximum (self.get w).i (omega arith)) refl

  pub source_past :
      (w : W) (cb : SourceCallback W ℕ)
      → (self.get w).maximum < (self.get w).i
      → source self going (some cb) w ≡ cb ended 0 w
  unfolding source
  source_past w cb h = rw (ltb-true (self.get w).maximum (self.get w).i h) refl

  pub past_of_nil : (w : W) → Counts [] w → (self.get w).maximum < (self.get w).i
  past_of_nil w (n, e, s, b) = omega (arith, counting_nil (self.get w).i n e)

  pub give_count :
      (x : ℕ) (xs : List ℕ) (w : W) (cb : SourceCallback W ℕ)
      → Counts (x ∷ xs) w
      → source self going (some cb) w ≡ cb going x (next w)
  give_count x xs w cb (n, e, s, b) =
      let (m, en, ex, _) = counting_cons (self.get w) x xs n e in
      rw ex (source_open w cb (omega arith))

  pub left_count : (x : ℕ) (xs : List ℕ) (w : W) → Counts (x ∷ xs) w → Counts xs (next w)
  left_count x xs w (n, e, s, b) =
      let (m, en, ex, exs) = counting_cons (self.get w) x xs n e in
      let up : next_u64 (self.get w).i ≡ (self.get w).i + 1 =
        next_u64_exact (self.get w).i (omega arith) in
      rw self.get-set (m, rw up exs, omega arith, b)

  -- `Count` gives the numbers up to and including its maximum, and then ends with no error.
  unfoldable pub count-Conforming : Conforming (source self) Counts IsPast ended
  count-Conforming = record {
    advance = next;
    finish = λ w. w;
    last = 0;
    ends = refl;
    give = give_count;
    give_left = left_count;
    end = λ w cb h. source_past w cb (past_of_nil w h);
    end_closed = past_of_nil;
  }

  pub count-Abortable : Abortable (source self)
  unfolding source
  count-Abortable = record {
    default = 0;
    answers = λ abort e w cb. rw e refl;
    silent = λ abort e w. rw e refl;
  }

  module _ {λ'} {X : Type λ'} (r : Ref W X) (a : Apart r self) where
    pub count-Leaves : Leaves r count-Conforming
    unfolding count-Conforming
    count-Leaves = record {
      set_left = λ xs x w h. rw (a.get-set_right) h;
      set_closed = λ x w h. rw (a.get-set_right) h;
      get_advance = λ x xs w h. a.get-set_left _ w;
      get_finish = λ w h. refl;
    }
