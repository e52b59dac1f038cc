-- ===== src/Common/SplitString/Laws.antt =====
-- `SplitString` (dk_pull/common/split_string.cc) against the parts of a text by recursion on it,
-- and against joining.

use mathlib.Core.List.{cons-ne-nil}
use dk_pull.Base.{
  ℕ, zero, suc, ◌+◌, ◌-◌, ◌≤◌, ◌<◌, ◌≡◌, ◌≢◌, refl, sym, ap, ◌∙◌, inl, inr, none, some, List, [],
  ◌∷◌, ◌++◌, append_assoc, length, take, drop, length-drop, take_all, drop-drop, arith, ◌==◌,
  ==-true, ==-false, Option-cases, Bool-cases, if◌then◌else◌,
}
use dk_pull.Common.SplitString.{Bytes, index, substr, split_loop, split_string}

-- A byte in front of the first part.
abbrev pub onto_first : ℕ → List Bytes → List Bytes
onto_first c [] = (c ∷ []) ∷ []
onto_first c (p ∷ ps) = (c ∷ p) ∷ ps

-- The parts between the delimiters, by recursion on the text: there is one more than delimiters.
abbrev pub parts : ℕ → Bytes → List Bytes
parts delim [] = [] ∷ []
parts delim (c ∷ s) = if c == delim then [] ∷ parts delim s else onto_first c (parts delim s)

-- The parts with the delimiter between them.
abbrev pub join : ℕ → List Bytes → Bytes
join delim [] = []
join delim (p ∷ []) = p
join delim (p ∷ q ∷ ps) = p ++ delim ∷ join delim (q ∷ ps)

abbrev pub Lacks : ℕ → Bytes → Type 0
Lacks delim [] = Unit {0}
Lacks delim (c ∷ s) = (c ≢ delim) × Lacks delim s

abbrev pub AllLack : ℕ → List Bytes → Type 0
AllLack delim [] = Unit {0}
AllLack delim (p ∷ ps) = Lacks delim p × AllLack delim ps

onto_first-ne-nil : (c : ℕ) (ps : List Bytes) → onto_first c ps ≢ []
onto_first-ne-nil c [] h = cc
onto_first-ne-nil c (p ∷ ps) h = cc

join_nil : (delim : ℕ) (ps : List Bytes) → ps ≢ [] → join delim ([] ∷ ps) ≡ delim ∷ join delim ps
join_nil delim [] ne = absurd (ne refl)
join_nil delim (p ∷ ps) ne = refl

join-onto_first : (delim c : ℕ) (ps : List Bytes) → join delim (onto_first c ps) ≡ c ∷ join delim ps
join-onto_first delim c [] = refl
join-onto_first delim c (p ∷ []) = refl
join-onto_first delim c (p ∷ q ∷ ps) = refl

onto_first-AllLack :
    (delim c : ℕ) (ps : List Bytes) → c ≢ delim → AllLack delim ps → AllLack delim (onto_first c ps)
onto_first-AllLack delim c [] ne h = ((ne, tt), tt)
onto_first-AllLack delim c (p ∷ ps) ne (hp, h) = ((ne, hp), h)

module _ (delim : ℕ) where
  parts_of_none : (s : Bytes) → index delim s ≡ none → parts delim s ≡ s ∷ []
  parts_of_none [] h = refl
  parts_of_none (c ∷ s) h = ground (arith, parts_of_none s)

  parts_of_some :
      (s : Bytes) (k : ℕ)
      → index delim s ≡ some k
      → (parts delim s ≡ take k s ∷ parts delim (drop (suc k) s)) × (k < length s)
  parts_of_some [] k h = absurd (cc)
  parts_of_some (c ∷ s) k h = elim (Bool-cases (c == delim)) [
    | inl e ↦ let z : k ≡ 0 = cc (rw e at h) in rw (z, e) (refl, omega arith)
    | inr ne ↦ elim (Option-cases (index delim s)) [
      | inl absent ↦ absurd (cc (rw (ne, absent) at h))
      | inr (j, found) ↦
          let z : k ≡ suc j = cc (rw (ne, found) at h) in
          let (cut, lt) = parts_of_some s j found in rw (z, ne) (rw cut refl, omega (arith, lt))
    ]
  ]

  module _ (full : Bytes) where
    split_loop-none :
        (fuel prev : ℕ) (result : List Bytes)
        → index delim (drop prev full) ≡ none
        → split_loop full delim (suc fuel) prev result
          ≡ some (result ++ substr full prev (length full - prev) ∷ [])
    unfolding split_loop
    split_loop-none fuel prev result e = rw (e, split_loop) refl

    split_loop-some :
        (fuel prev k : ℕ) (result : List Bytes)
        → index delim (drop prev full) ≡ some k
        → split_loop full delim (suc fuel) prev result
          ≡ split_loop full delim fuel
              (k + prev + 1)
              (result ++ substr full prev (k + prev - prev) ∷ [])
    unfolding split_loop
    split_loop-some fuel prev k result e = rw (e, split_loop) refl

    -- The loop from a position on pushes the parts of the rest of the text.
    split_loop-parts :
        (fuel prev_pos : ℕ) (result : List Bytes)
        → prev_pos ≤ length full
        → length full - prev_pos < fuel
        → split_loop full delim fuel prev_pos result
          ≡ some (result ++ parts delim (drop prev_pos full))
    split_loop-parts zero prev result le lt = absurd (omega arith)
    split_loop-parts (suc fuel) prev result le lt =
        elim (Option-cases (index delim (drop prev full))) [
          | inl absent ↦
              split_loop-none fuel prev result absent
              ∙ rw
                  (
                    parts_of_none (drop prev full) absent,
                    take_all (length full - prev) (drop prev full)
                        (omega (arith, length-drop prev full)),
                  )
                  refl
          | inr (k, found) ↦
              let (cut, inside) = parts_of_some (drop prev full) k found in
              let k_eq : k + prev - prev ≡ k = omega arith in
              let n_eq : suc k + prev ≡ k + prev + 1 = omega arith in
              let to_eq : drop (k + prev + 1) full ≡ drop (suc k) (drop prev full) =
                sym (drop-drop (suc k) prev full ∙ ap (λ n. drop n full) n_eq) in
              let more = result ++ take k (drop prev full) ∷ [] in
              split_loop-some fuel prev k result found
              ∙ rw k_eq (
                  split_loop-parts fuel (k + prev + 1) more (omega (arith, length-drop prev full))
                    (omega (arith, length-drop prev full))
                  ∙ rw (to_eq, cut, append_assoc) refl)
        ]

  -- With more fuel than there are bytes the code computes the parts of a text that is not empty, by
  -- their definition by recursion on the text, whatever the vector held.
  pub split_string-parts :
      (fuel : ℕ) (result : List Bytes) (full : Bytes)
      → length full < fuel
      → full ≢ []
      → split_string fuel result full delim ≡ some (parts delim full)
  unfolding split_string
  split_string-parts fuel result [] lt ne = absurd (ne refl)
  split_string-parts fuel result (c ∷ s) lt ne =
      split_loop-parts (c ∷ s) fuel 0 [] (omega arith) (omega arith)

  parts-ne-nil : (s : Bytes) → parts delim s ≢ []
  parts-ne-nil [] h = cc
  parts-ne-nil (c ∷ s) h = elim (Bool-cases (c == delim)) [
    | inl e ↦ cc (rw e at h)
    | inr ne ↦ onto_first-ne-nil c (parts delim s) (rw ne at h)
  ]

  -- Joining the parts gives the text back.
  pub join-parts : (s : Bytes) → join delim (parts delim s) ≡ s
  join-parts [] = refl
  join-parts (c ∷ s) = elim (Bool-cases (c == delim)) [
    | inl e ↦
        let same : c ≡ delim = ground arith in
        rw e (join_nil delim (parts delim s) (parts-ne-nil s) ∙ rw (join-parts s, same) refl)
    | inr ne ↦ rw ne (join-onto_first delim c (parts delim s) ∙ rw (join-parts s) refl)
  ]

  -- No part holds the delimiter.
  pub parts-AllLack : (s : Bytes) → AllLack delim (parts delim s)
  parts-AllLack [] = (tt, tt)
  parts-AllLack (c ∷ s) = elim (Bool-cases (c == delim)) [
    | inl e ↦ rw e (tt, parts-AllLack s)
    | inr ne ↦ rw ne (onto_first-AllLack delim c (parts delim s) (ground arith) (parts-AllLack s))
  ]

  parts-append :
      (p rest : Bytes) → Lacks delim p → parts delim (p ++ delim ∷ rest) ≡ p ∷ parts delim rest
  parts-append [] rest h = rw (==-true delim delim refl) refl
  parts-append (c ∷ p) rest (ne, h) = rw (==-false c delim ne, parts-append p rest h) refl

  parts-Lacks : (p : Bytes) → Lacks delim p → parts delim p ≡ p ∷ []
  parts-Lacks [] h = refl
  parts-Lacks (c ∷ p) (ne, h) = rw (==-false c delim ne, parts-Lacks p h) refl

  -- Cutting a join gives the parts back, if there is one and none holds the delimiter.
  parts-join : (ps : List Bytes) → ps ≢ [] → AllLack delim ps → parts delim (join delim ps) ≡ ps
  parts-join [] ne h = absurd (ne refl)
  parts-join (p ∷ []) ne (hp, h) = parts-Lacks p hp
  parts-join (p ∷ q ∷ ps) ne (hp, h) =
      parts-append p (join delim (q ∷ ps)) hp
      ∙ ap (λ l. p ∷ l) (parts-join (q ∷ ps) (cons-ne-nil q ps) h)

  -- Every text is split into parts, whatever the vector held: none holds the delimiter, and
  -- joining them gives the text back. More fuel than there are bytes is enough.
  pub join-split_string :
      (fuel : ℕ) (result : List Bytes) (full : Bytes)
      → length full < fuel
      → (ps : List Bytes) × (split_string fuel result full delim ≡ some ps)
        × AllLack delim ps
        × (join delim ps ≡ full)
  unfolding split_string
  join-split_string fuel result [] lt = ([], refl, tt, refl)
  join-split_string fuel result (c ∷ s) lt = (
    parts delim (c ∷ s),
    split_string-parts fuel result (c ∷ s) lt (cons-ne-nil c s),
    parts-AllLack (c ∷ s),
    join-parts (c ∷ s),
  )

  -- Parts that do not hold the delimiter are found again in their join, unless that is empty,
  -- whatever the vector held. More fuel than the join has bytes is enough.
  pub split_string-join :
      (fuel : ℕ) (result ps : List Bytes)
      → AllLack delim ps
      → join delim ps ≢ []
      → length (join delim ps) < fuel
      → split_string fuel result (join delim ps) delim ≡ some ps
  split_string-join fuel result [] h ne lt = absurd (ne refl)
  split_string-join fuel result (p ∷ ps) h ne lt =
      split_string-parts fuel result (join delim (p ∷ ps)) lt ne
      ∙ ap some (parts-join (p ∷ ps) (cons-ne-nil p ps) h)
