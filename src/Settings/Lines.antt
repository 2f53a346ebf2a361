-- ===== src/Settings/Lines.antt =====
-- Reading the lines of a text field.
use jumpway.Prelude.{false, List, [], ◌∷◌, ◌++◌, Text, trim, nat_beq, ◌≡◌, refl, arith, All}
use jumpway.Way.Laws.{join, IsUsable, usable-id}
use jumpway.Settings.{split_lines, read_lines}

-- No line break in the text.
abbrev pub IsLine : Text → Type 0
IsLine = All (λ c. (nat_beq c 10 ≡ false) × (nat_beq c 13 ≡ false))

split_lines-break : (s : Text) → split_lines (10 ∷ s) ≡ [] ∷ split_lines s
unfolding split_lines
split_lines-break [] = refl
split_lines-break (d ∷ s) = refl

split_lines-append : (u s : Text) → IsLine u → split_lines (u ++ (10 ∷ s)) ≡ u ∷ split_lines s
unfolding split_lines
split_lines-append [] s h = split_lines-break s
split_lines-append (c ∷ []) s (k, h) = ground (arith, split_lines-break s)
split_lines-append (c ∷ d ∷ u) s (k, h) = ground (arith, split_lines-append (d ∷ u) s h)

split_lines_of_IsLine : (u : Text) → IsLine u → split_lines u ≡ u ∷ []
unfolding split_lines
split_lines_of_IsLine [] h = refl
split_lines_of_IsLine (c ∷ []) (k, h) = ground arith
split_lines_of_IsLine (c ∷ d ∷ u) (k, h) = ground (arith, split_lines_of_IsLine (d ∷ u) h)

split_lines-join :
    (u : Text) (lines : List Text)
    → All IsLine (u ∷ lines)
    → split_lines (join 10 (u ∷ lines)) ≡ u ∷ lines
split_lines-join u [] (h, _) = split_lines_of_IsLine u h
split_lines-join u (v ∷ lines) (h, hs) =
    rw (split_lines-append u (join 10 (v ∷ lines)) h, split_lines-join v lines hs)

-- Lines that are trimmed and not blank are read back from the text that joins them.
read_lines-join :
    (lines : List Text) → All IsLine lines → All IsUsable lines → read_lines (join 10 lines) ≡ lines
unfolding read_lines trim
read_lines-join [] h k = refl
read_lines-join (u ∷ lines) h k = rw (split_lines-join u lines h) (usable-id (u ∷ lines) k)
