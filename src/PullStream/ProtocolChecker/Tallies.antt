-- ===== src/PullStream/ProtocolChecker/Tallies.antt =====
-- The closures' counters (dk_pull/pull_stream/protocol_checker.h) against how many answers each
-- request has had.
use dk_pull.Base.{
  ℕ, zero, suc, ◌≡◌, refl, ap, ◌∙◌, Bool, true, false, List, [], ◌∷◌, ◌++◌, length, get_or, set,
  arith, ◌==◌, if◌then◌else◌,
}
use dk_pull.PullStream.ProtocolChecker.Cells.{ones_before, ones}

-- The counters of the requests with a callback, in order.
abbrev pub tallies : List Bool → (ℕ → ℕ) → List ℕ
tallies [] f = []
tallies (true ∷ bs) f = f zero ∷ tallies bs (λ k. f (suc k))
tallies (false ∷ bs) f = tallies bs (λ k. f (suc k))

-- One more answer to a request.
abbrev pub raised : ℕ → (ℕ → ℕ) → ℕ → ℕ
raised k f j = if j == k then suc (f k) else f j

pub length-tallies : (bs : List Bool) (f : ℕ → ℕ) → length (tallies bs f) ≡ ones bs
length-tallies [] f = refl
length-tallies (true ∷ bs) f = ap suc (length-tallies bs (λ k. f (suc k)))
length-tallies (false ∷ bs) f = length-tallies bs (λ k. f (suc k))

pub get-tallies :
    (bs : List Bool) (f : ℕ → ℕ) (k : ℕ)
    → get_or bs k false ≡ true
    → get_or (tallies bs f) (ones_before bs k) 0 ≡ f k
get-tallies [] f k h = absurd (cc)
get-tallies (true ∷ bs) f zero h = refl
get-tallies (false ∷ bs) f zero h = absurd (cc)
get-tallies (true ∷ bs) f (suc k) h = get-tallies bs (λ j. f (suc j)) k h
get-tallies (false ∷ bs) f (suc k) h = get-tallies bs (λ j. f (suc j)) k h

-- Functions that agree give the same counters.
tallies-ext : (bs : List Bool) (f g : ℕ → ℕ) → ((k : ℕ) → f k ≡ g k) → tallies bs f ≡ tallies bs g
tallies-ext [] f g h = refl
tallies-ext (true ∷ bs) f g h =
    rw (h zero)
      (ap (λ l. g zero ∷ l) (tallies-ext bs (λ k. f (suc k)) (λ k. g (suc k)) (λ k. h (suc k))))
tallies-ext (false ∷ bs) f g h = tallies-ext bs (λ k. f (suc k)) (λ k. g (suc k)) (λ k. h (suc k))

raised-suc : (k : ℕ) (f : ℕ → ℕ) (j : ℕ) → raised k (λ i. f (suc i)) j ≡ raised (suc k) f (suc j)
raised-suc k f j = ground arith

raised-zero : (k : ℕ) (f : ℕ → ℕ) → f zero ≡ raised (suc k) f zero
raised-zero k f = ground arith

pub set-tallies :
    (bs : List Bool) (f : ℕ → ℕ) (k : ℕ)
    → get_or bs k false ≡ true
    → set (tallies bs f) (ones_before bs k) (suc (f k)) ≡ tallies bs (raised k f)
set-tallies [] f k h = absurd (cc)
set-tallies (true ∷ bs) f zero h =
    ap (λ l. suc (f zero) ∷ l)
      (tallies-ext bs (λ j. f (suc j)) (λ j. raised zero f (suc j)) (λ j. ground arith))
set-tallies (false ∷ bs) f zero h = absurd (cc)
set-tallies (true ∷ bs) f (suc k) h =
    ap (λ l. f zero ∷ l)
      (set-tallies bs (λ j. f (suc j)) k h
        ∙ tallies-ext bs (raised k (λ j. f (suc j))) (λ j. raised (suc k) f (suc j))
            (raised-suc k f))
    ∙ ap (λ n. n ∷ tallies bs (λ j. raised (suc k) f (suc j))) (raised-zero k f)
set-tallies (false ∷ bs) f (suc k) h =
    set-tallies bs (λ j. f (suc j)) k h
    ∙ tallies-ext bs (raised k (λ j. f (suc j))) (λ j. raised (suc k) f (suc j)) (raised-suc k f)

pub tallies-append_true :
    (bs : List Bool) (f : ℕ → ℕ) → tallies (bs ++ true ∷ []) f ≡ tallies bs f ++ f (length bs) ∷ []
tallies-append_true [] f = refl
tallies-append_true (true ∷ bs) f = ap (λ l. f zero ∷ l) (tallies-append_true bs (λ k. f (suc k)))
tallies-append_true (false ∷ bs) f = tallies-append_true bs (λ k. f (suc k))

pub tallies-append_false :
    (bs : List Bool) (f : ℕ → ℕ) → tallies (bs ++ false ∷ []) f ≡ tallies bs f
tallies-append_false [] f = refl
tallies-append_false (true ∷ bs) f = ap (λ l. f zero ∷ l) (tallies-append_false bs (λ k. f (suc k)))
tallies-append_false (false ∷ bs) f = tallies-append_false bs (λ k. f (suc k))
