-- ===== src/Examples/Text.antt =====
-- Splitting, and what ends: the event loop and `Finally`.
use dk_pull.Base.{ℕ, ◌≡◌, ◌≢◌, refl, List, [], ◌∷◌, ◌++◌, some, none, arith}
use dk_pull.Base.Action.{Action, ok, fatal, raise, bad_function_call, ◌>>◌}
use dk_pull.Common.Finally.{create, destroy}
use dk_pull.Common.SplitString.{Bytes, split_string, split_loop}
use dk_pull.Common.SplitString.Laws.{
  AllLack, join, join-split_string, split_string-join, split_string-parts,
}

-- "a,,b" with 44 for the comma.
abbrev text : Bytes
text = 97 ∷ 44 ∷ 44 ∷ 98 ∷ []

abbrev cut : List Bytes
cut = (97 ∷ []) ∷ [] ∷ (98 ∷ []) ∷ []

split : split_string 5 [] text 44 ≡ some cut
unfolding split_string split_loop
split = refl

ne_text : text ≢ []
ne_text h = cc

split_string-parts_example : split_string 5 (text ∷ []) text 44 ≡ some cut
split_string-parts_example = split_string-parts 44 5 (text ∷ []) text (omega arith) ne_text

join-split_string_example :
    (ps : List Bytes) × (split_string 5 (text ∷ []) text 44 ≡ some ps)
    × AllLack 44 ps
    × (join 44 ps ≡ text)
join-split_string_example = join-split_string 44 5 (text ∷ []) text (omega arith)

no_comma : AllLack 44 cut
no_comma = ((λ e. absurd (omega arith), tt), (tt, ((λ e. absurd (omega arith), tt), tt)))

split_string-join_example : split_string 5 [] text 44 ≡ some cut
split_string-join_example = split_string-join 44 5 [] cut no_comma ne_text (omega arith)

-- The action runs, and an exception of it ends the process; without an action nothing happens.
abbrev shout : ℕ → Action (List ℕ) (Unit {0})
shout x w = (ok tt, w ++ x ∷ [])

destroyed :
    (destroy {W = List ℕ} (create (some (shout 7))) (3 ∷ []) ≡ (ok tt, 3 ∷ 7 ∷ []))
    × (destroy {W = List ℕ} (create (some (shout 7 >> raise bad_function_call))) (3 ∷ [])
        ≡ (fatal, 3 ∷ 7 ∷ []))
    × (destroy {W = List ℕ} (create none) (3 ∷ []) ≡ (ok tt, 3 ∷ []))
unfolding destroy
destroyed = (refl, refl, refl)
