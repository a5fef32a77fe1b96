-- ===== src/Table/Scan.antt =====
-- SELECT ... WHERE p ORDER BY ... LIMIT n, and an UPDATE of the rows behind a list of keys.
pub mod Laws
pub mod Full
use task_forge.Base.{
  ℕ, Bool, true, false, List, [], ◌∷◌, Option, none, some, if◌then◌else◌, take, ◌||◌, ◌==◌,
}
use task_forge.Table.{Table, update}

-- The rows in the order of a query: each new row goes before the first that comes after it.
module _ {ℓ} {A : Type ℓ} (before : ℕ × A → ℕ × A → Bool) where
  unfoldable pub insert_row : ℕ × A → Table A → Table A
  insert_row r [] = r ∷ []
  insert_row r (s ∷ t) = let rest = insert_row r t in if before r s then r ∷ s ∷ t else s ∷ rest

  unfoldable pub ordered : Table A → Table A
  ordered [] = []
  ordered (r ∷ t) = insert_row r (ordered t)

-- An id that a list has.
abbrev pub has_id : ℕ → List ℕ → Bool
has_id k [] = false
has_id k (id ∷ ids) = id == k || has_id k ids

module _ {ℓ} {A : Type ℓ} where
  -- WHERE p
  unfoldable pub matching : (ℕ → A → Bool) → Table A → Table A
  matching p [] = []
  matching p ((k, a) ∷ t) = let rest = matching p t in if p k a then (k, a) ∷ rest else rest

  abbrev pub keys : Table A → List ℕ
  keys [] = []
  keys ((k, a) ∷ t) = k ∷ keys t

  unfoldable pub select : (ℕ → A → Bool) → (ℕ × A → ℕ × A → Bool) → ℕ → Table A → Table A
  select p before limit t = take limit (matching p (ordered before t))

  abbrev or_same : Table A → Option (Table A) → Table A
  or_same t none = t
  or_same t (some t') = t'

  -- UPDATE ... SET f WHERE id = k AND p; whether a row was there is not asked.
  unfoldable pub touch : ℕ → (A → Bool) → (A → A) → Table A → Table A
  touch k p f t = or_same t (update k p f t)

  unfoldable pub touch_all : List ℕ → (A → A) → Table A → Table A
  touch_all [] f t = t
  touch_all (k ∷ ks) f t = touch_all ks f (touch k (λ _. true) f t)
