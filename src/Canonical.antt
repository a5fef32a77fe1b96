-- ===== src/Canonical.antt =====
-- A set of names as the code stores it: trimmed, without repetitions, in the order of their bytes.
pub mod Laws
use task_forge.Base.{
  Text, ℕ, Bool, true, false, ◌||◌, List, [], ◌∷◌, ◌==◌, ltb, text_eq, if◌then◌else◌, trim_space,
}

-- sort.Strings compares bytes.
unfoldable pub text_lt : Text → Text → Bool
text_lt [] [] = false
text_lt [] (b ∷ t) = true
text_lt (a ∷ s) [] = false
text_lt (a ∷ s) (b ∷ t) = if ltb a b then true else if a == b then text_lt s t else false

-- One more member.
unfoldable pub add_name : Text → List Text → List Text
add_name v [] = v ∷ []
add_name v (x ∷ xs) =
    let rest = add_name v xs in
    if text_lt v x then v ∷ x ∷ xs else if text_eq v x then x ∷ xs else x ∷ rest

unfoldable pub has_name : Text → List Text → Bool
has_name u [] = false
has_name u (x ∷ xs) = text_eq x u || has_name u xs

-- workers' canonicalSet
unfoldable pub canonical_set : List Text → List Text
canonical_set [] = []
canonical_set (v ∷ vs) =
    let rest = canonical_set vs in
    if text_eq (trim_space v) [] then rest else add_name (trim_space v) rest
