-- ===== src/Common/SplitString.antt =====
-- `SplitString` (dk_pull/common/split_string.h and split_string.cc), over the bytes of the text.
-- `find` and `substr` are those of `std::string`, with `none` for `npos`; the two overloads are one
-- function.
pub mod Laws
use mathlib.Core.Option
use dk_pull.Base.{
  ℕ, zero, suc, ◌+◌, ◌-◌, Option, none, some, List, [], ◌∷◌, ◌++◌, length, take, drop, ◌==◌,
  if◌then◌else◌,
}

abbrev pub Bytes : Type 0
Bytes = List ℕ

abbrev pub index : ℕ → Bytes → Option ℕ
index delim [] = none
index delim (c ∷ s) = if c == delim then some 0 else Option.map suc (index delim s)

-- The first position from `pos` on.
abbrev pub find : Bytes → ℕ → ℕ → Option ℕ
find full delim pos = Option.map (λ k. k + pos) (index delim (drop pos full))

abbrev pub substr : Bytes → ℕ → ℕ → Bytes
substr full pos count = take count (drop pos full)

-- The `while` loop of `DoSplitString`, and what follows it. `none` means that the fuel ran out.
unfoldable pub split_loop : Bytes → ℕ → ℕ → ℕ → List Bytes → Option (List Bytes)
split_loop full delim zero prev_pos result = none
split_loop full delim (suc fuel) prev_pos result = elim (find full delim prev_pos) [
  | none ↦ some (result ++ substr full prev_pos (length full - prev_pos) ∷ [])
  | some pos ↦
      split_loop full delim fuel (pos + 1) (result ++ substr full prev_pos (pos - prev_pos) ∷ [])
]

-- `DoSplitString`: what `result` held before is dropped, and an empty text has no parts.
unfoldable pub split_string : ℕ → List Bytes → Bytes → ℕ → Option (List Bytes)
unfolding split_loop
split_string fuel result [] delim = some []
split_string fuel result (c ∷ full) delim = split_loop (c ∷ full) delim fuel 0 []
