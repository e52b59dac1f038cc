-- ===== src/PullStream/ProtocolChecker/Cells.antt =====
-- The closures of the requests (dk_pull/pull_stream/protocol_checker.h) and where their counters
-- stand among those of the requests with a callback.
use dk_pull.Base.{
  ℕ, zero, suc, ◌+◌, ◌<◌, ◌≡◌, refl, ap, Bool, true, false, Option, none, some, List, [], ◌∷◌, ◌++◌,
  length, get_or, get_elem?, arith, ◌⊎◌, inl, inr,
}
use dk_pull.PullStream.ProtocolChecker.Trace.{Closure}

abbrev pub closures : List Bool → ℕ → ℕ → List (Option Closure)
closures [] i c = []
closures (true ∷ bs) i c = some (record { i = i; counter = c }) ∷ closures bs (i + 1) (c + 1)
closures (false ∷ bs) i c = none ∷ closures bs (i + 1) c

-- How many of the first `k` requests had a callback, and how many of all.
abbrev pub ones_before : List Bool → ℕ → ℕ
ones_before [] k = 0
ones_before (b ∷ bs) zero = 0
ones_before (true ∷ bs) (suc k) = suc (ones_before bs k)
ones_before (false ∷ bs) (suc k) = ones_before bs k

abbrev pub ones : List Bool → ℕ
ones [] = 0
ones (true ∷ bs) = suc (ones bs)
ones (false ∷ bs) = ones bs

pub closures-append_true :
    (bs : List Bool) (i c : ℕ)
    → closures (bs ++ true ∷ []) i c
      ≡ closures bs i c ++ some (record { i = i + length bs; counter = c + ones bs }) ∷ []
closures-append_true [] i c = ground arith
closures-append_true (true ∷ bs) i c = ground (arith, closures-append_true bs (i + 1) (c + 1))
closures-append_true (false ∷ bs) i c = ground (arith, closures-append_true bs (i + 1) c)

pub closures-append_false :
    (bs : List Bool) (i c : ℕ) → closures (bs ++ false ∷ []) i c ≡ closures bs i c ++ none ∷ []
closures-append_false [] i c = refl
closures-append_false (true ∷ bs) i c =
    ap (λ l. some (record { i = i; counter = c }) ∷ l) (closures-append_false bs (i + 1) (c + 1))
closures-append_false (false ∷ bs) i c = ap (λ l. none ∷ l) (closures-append_false bs (i + 1) c)

-- The closure of a request with a callback, and of one without.
pub closures-get :
    (bs : List Bool) (i c k : ℕ)
    → get_or bs k false ≡ true
    → get_elem? (closures bs i c) k
      ≡ some (some (record { i = i + k; counter = c + ones_before bs k }))
closures-get [] i c k h = absurd (cc)
closures-get (true ∷ bs) i c zero h = ground arith
closures-get (false ∷ bs) i c zero h = absurd (cc)
closures-get (true ∷ bs) i c (suc k) h = ground (arith, closures-get bs (i + 1) (c + 1) k h)
closures-get (false ∷ bs) i c (suc k) h = ground (arith, closures-get bs (i + 1) c k h)

pub closures-get_none :
    (bs : List Bool) (i c k : ℕ)
    → get_or bs k false ≡ false
    → (get_elem? (closures bs i c) k ≡ none) ⊎ (get_elem? (closures bs i c) k ≡ some none)
closures-get_none [] i c k h = inl refl
closures-get_none (true ∷ bs) i c zero h = absurd (cc)
closures-get_none (false ∷ bs) i c zero h = inr refl
closures-get_none (true ∷ bs) i c (suc k) h = closures-get_none bs (i + 1) (c + 1) k h
closures-get_none (false ∷ bs) i c (suc k) h = closures-get_none bs (i + 1) c k h

pub get_or-lt : (bs : List Bool) (k : ℕ) → get_or bs k false ≡ true → k < length bs
get_or-lt [] k h = absurd (cc)
get_or-lt (b ∷ bs) zero h = omega arith
get_or-lt (b ∷ bs) (suc k) h = omega (arith, get_or-lt bs k h)
