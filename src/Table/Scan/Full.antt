-- ===== src/Table/Scan/Full.antt =====
-- A query with a limit that cuts nothing finds every row that meets its condition.
use Prim.Native.Nat.{suc, zero}
use task_forge.Base.{
  ℕ, ◌+◌, ◌≤◌, ◌≡◌, refl, ◌∙◌, arith, ap, Bool, true, false, ◌&&◌, ◌||◌, ◌==◌, some, List, [], ◌∷◌,
  Bool-cases, inl, inr, length, take, ==_iff,
}
use task_forge.Table.{Table, find}
use task_forge.Table.Scan.{insert_row, ordered, matching, keys, select, has_id}

module _ {A : Type 0} (p : ℕ → A → Bool) (k : ℕ) where
  -- Some row has the key and meets the condition.
  abbrev present : Table A → Bool
  present [] = false
  present ((i, a) ∷ t) = (i == k && p i a) || present t

  present-find : (t : Table A) (a : A) → find k t ≡ some a → p k a ≡ true → present t ≡ true
  unfolding find
  present-find [] a found holds = cc
  present-find ((i, b) ∷ t) a found holds = elim (Bool-cases (i == k)) [
    | inl same ↦
        let key : i ≡ k = (==_iff i k).0 same in
        let row : b ≡ a = ground (arith, found, same) in
        let here : p i b ≡ true = rw (key, row) holds in rw (same, here) refl
    | inr other ↦ rw (other, present-find t a (rw other at found) holds) refl
  ]

  present-insert_row :
      (before : ℕ × A → ℕ × A → Bool) (r : ℕ × A) (t : Table A)
      → present (insert_row before r t) ≡ present (r ∷ t)
  unfolding insert_row
  present-insert_row before r [] = refl
  present-insert_row before r (s ∷ t) = ground (arith, present-insert_row before r t)

  present-ordered :
      (before : ℕ × A → ℕ × A → Bool) (t : Table A) → present (ordered before t) ≡ present t
  unfolding ordered
  present-ordered before [] = refl
  present-ordered before ((i, a) ∷ t) =
      present-insert_row before (i, a) (ordered before t)
      ∙ ap (λ b. (i == k && p i a) || b) (present-ordered before t)

  has_id-matching : (t : Table A) → present t ≡ true → has_id k (keys (matching p t)) ≡ true
  unfolding matching
  has_id-matching [] h = h
  has_id-matching ((i, a) ∷ t) h = ground (arith, has_id-matching t, h)

module _ {A : Type 0} where
  length-insert_row :
      (before : ℕ × A → ℕ × A → Bool) (r : ℕ × A) (t : Table A)
      → length (insert_row before r t) ≡ length t + 1
  unfolding insert_row
  length-insert_row before r [] = refl
  length-insert_row before r (s ∷ t) = ground (arith, length-insert_row before r t)

  length-ordered :
      (before : ℕ × A → ℕ × A → Bool) (t : Table A) → length (ordered before t) ≡ length t
  unfolding ordered
  length-ordered before [] = refl
  length-ordered before (r ∷ t) =
      ground (arith, length-insert_row before r (ordered before t), length-ordered before t)

  length-matching-le : (p : ℕ → A → Bool) (t : Table A) → length (matching p t) ≤ length t
  unfolding matching
  length-matching-le p [] = omega arith
  length-matching-le p ((i, a) ∷ t) = ground (arith, length-matching-le p t)

take_all : {A : Type 0} (n : ℕ) (t : List A) → length t ≤ n → take n t ≡ t
take_all zero [] h = refl
take_all (suc n) [] h = refl
take_all zero (a ∷ t) h = ground (arith, h)
take_all (suc n) (a ∷ t) h = ap (λ x. a ∷ x) (take_all n t (omega (arith, h)))

pub has_id-select :
    {A : Type 0} (p : ℕ → A → Bool) (before : ℕ × A → ℕ × A → Bool) (n k : ℕ) (t : Table A) (a : A)
    → find k t ≡ some a
    → p k a ≡ true
    → length t ≤ n
    → has_id k (keys (select p before n t)) ≡ true
unfolding select
has_id-select p before n k t a found holds few =
    let short = length-matching-le p (ordered before t) in
    let size = length-ordered before t in
    rw (take_all n (matching p (ordered before t)) (omega (arith, short, size, few))) (
      has_id-matching p k (ordered before t)
        (present-ordered p k before t ∙ present-find p k t a found holds))
