-- ===== src/Base/Trim.antt =====
-- Go's strings.TrimSpace on bytes: the spaces are those of unicode.IsSpace, in UTF-8.
use Prim.Native.Nat.{ℕ}
use mathlib.Core.Bool.{Bool, ◌&&◌, ◌||◌}
use mathlib.Core.List.{List, [], ◌∷◌}
use task_forge.Base.Tests.{Text, leb, ◌==◌, if◌then◌else◌}
use task_forge.Base.Lists.{drop}

abbrev within : ℕ → ℕ → ℕ → Bool
within a b c = leb a c && leb c b

abbrev ascii_space : ℕ → Bool
ascii_space c = within 9 13 c || c == 32

-- U+0085 and U+00A0
abbrev pair_space : ℕ → ℕ → Bool
pair_space a b = a == 194 && (b == 133 || b == 160)

-- U+1680, U+2000 to U+200A, U+2028, U+2029, U+202F, U+205F and U+3000
abbrev triple_space : ℕ → ℕ → ℕ → Bool
triple_space a b c =
    (a == 225 && b == 154 && c == 128)
    || (a == 226 && b == 128 && (within 128 138 c || c == 168 || c == 169 || c == 175))
    || (a == 226 && b == 129 && c == 159)
    || (a == 227 && b == 128 && c == 128)

abbrev space_width3 : ℕ → ℕ → Text → ℕ
space_width3 a b [] = 0
space_width3 a b (c ∷ s) = if triple_space a b c then 3 else 0

abbrev space_width2 : ℕ → Text → ℕ
space_width2 a [] = 0
space_width2 a (b ∷ s) = if pair_space a b then 2 else space_width3 a b s

-- The bytes of the space that a text begins with; 0 if it begins with none.
unfoldable space_width : Text → ℕ
space_width [] = 0
space_width (a ∷ s) = if ascii_space a then 1 else space_width2 a s

-- The same of a text that is written backwards.
abbrev space_width3_back : ℕ → ℕ → Text → ℕ
space_width3_back c b [] = 0
space_width3_back c b (a ∷ s) = if triple_space a b c then 3 else 0

abbrev space_width2_back : ℕ → Text → ℕ
space_width2_back b [] = 0
space_width2_back b (a ∷ s) = if pair_space a b then 2 else space_width3_back b a s

unfoldable space_width_back : Text → ℕ
space_width_back [] = 0
space_width_back (a ∷ s) = if ascii_space a then 1 else space_width2_back a s

-- The loop takes at least one byte each time, so the text's length is enough fuel.
unfoldable trim_by : (Text → ℕ) → List ℕ → Text → Text
trim_by width [] s = s
trim_by width (_ ∷ fuel) s =
    let rest = trim_by width fuel (drop (width s) s) in if width s == 0 then s else rest

abbrev reversed : Text → Text → Text
reversed done [] = done
reversed done (c ∷ s) = reversed (c ∷ done) s

unfoldable pub trim_space : Text → Text
unfolding trim_by space_width space_width_back
trim_space s =
    let left = trim_by space_width s s in
    let back = reversed [] left in reversed [] (trim_by space_width_back back back)
