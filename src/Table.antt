-- ===== src/Table.antt =====
-- A table of the database, its rows behind their primary keys. A client sees `find`, `put` and
-- `count` through the laws in the children.
pub mod Laws
pub mod Scan
pub mod Page
use task_forge.Base.{
  ℕ, ◌+◌, Bool, true, false, List, [], ◌∷◌, Option, none, some, ◌==◌, if◌then◌else◌, bit, ltb,
}

module _ {ℓ} where
  abbrev pub Table : Type ℓ → Type ℓ
  Table A = List (ℕ × A)

module _ {ℓ} {A : Type ℓ} where
  -- The row behind a key.
  unfoldable pub find : ℕ → Table A → Option A
  find i [] = none
  find i ((k, a) ∷ t) = if k == i then some a else find i t

  -- Writes a row in place, or adds it at the end.
  unfoldable pub put : ℕ → A → Table A → Table A
  put i a [] = (i, a) ∷ []
  put i a ((k, b) ∷ t) = if k == i then (i, a) ∷ t else (k, b) ∷ put i a t

  -- SELECT count(*) ... WHERE p
  unfoldable pub count : (A → Bool) → Table A → ℕ
  count p [] = 0
  count p ((k, a) ∷ t) = bit (p a) + count p t

  -- SELECT EXISTS (...)
  abbrev pub any : (A → Bool) → Table A → Bool
  any p t = ltb 0 (count p t)

  -- INSERT: a second row behind one key is a violation.
  abbrev pub insert : ℕ → A → Table A → Option (Table A)
  insert i a t = elim (find i t) [ none ↦ some (put i a t) | some _ ↦ none ]

  -- UPDATE ... SET f WHERE id = i AND p; `none` is RowsAffected() == 0.
  abbrev update_row : Option A → ℕ → (A → Bool) → (A → A) → Table A → Option (Table A)
  update_row none i p f t = none
  update_row (some a) i p f t = if p a then some (put i (f a) t) else none

  unfoldable pub update : ℕ → (A → Bool) → (A → A) → Table A → Option (Table A)
  update i p f t = update_row (find i t) i p f t

  -- The row's key and value at the first row with p.
  unfoldable pub find_where : (A → Bool) → Table A → Option (ℕ × A)
  find_where p [] = none
  find_where p ((k, a) ∷ t) = if p a then some (k, a) else find_where p t

  -- SELECT ... WHERE id = i AND p
  abbrev keep : (A → Bool) → Option A → Option A
  keep p none = none
  keep p (some a) = if p a then some a else none

  unfoldable pub find_if : ℕ → (A → Bool) → Table A → Option A
  find_if i p t = keep p (find i t)
