-- ===== src/Table/Page.antt =====
-- Keyset pages: the rows of a query, newest first, after a position in that order.
pub mod Order
pub mod Walk
use task_forge.Base.{
  ℕ, ◌+◌, Bool, true, false, ◌||◌, ◌&&◌, ℤ, pos, negsuc, List, [], ◌∷◌, Option, none, some, ◌==◌,
  ltb, if◌then◌else◌, take, length,
}
use task_forge.Table.{Table}
use task_forge.Table.Scan.{ordered, matching, select}

-- A position: the instant and the id of a row.
abbrev pub Position : Type 0
Position = ℕ × ℕ

-- `(at, id) < (at', id')`, the comparison of rows.
abbrev pub precedes : Position → Position → Bool
precedes (a, i) (b, k) = ltb a b || (a == b && ltb i k)

-- Every limit that is not positive stands for the default, and none is above the maximum.
unfoldable pub bound_page : ℕ → ℕ → ℤ → ℕ
bound_page default max (pos n) = if n == 0 then default else if ltb max n then max else n
bound_page default max (negsuc n) = default

module _ {ℓ} {A : Type ℓ} (at : A → ℕ) where
  abbrev pub position : ℕ × A → Position
  position (i, a) = (at a, i)

  -- ORDER BY at DESC, id DESC
  abbrev pub newest_first : ℕ × A → ℕ × A → Bool
  newest_first r s = precedes (position s) (position r)

  -- `cursor IS NULL OR (at, id) < cursor`
  abbrev pub is_after : Option Position → ℕ → A → Bool
  is_after none i a = true
  is_after (some c) i a = precedes (at a, i) c

  -- The position of the row at `limit - 1`.
  abbrev pub last_position : Table A → Option Position
  last_position [] = none
  last_position (r ∷ []) = some (position r)
  last_position (r ∷ s ∷ t) = last_position (s ∷ t)

  -- The rows, of which one more than the limit was asked for, and the position where the next page
  -- begins, if that row was there.
  abbrev pub cut_page : ℕ → Table A → Table A × Option Position
  cut_page limit rows =
      if ltb limit (length rows)
      then (take limit rows, last_position (take limit rows))
      else (rows, none)

  unfoldable pub page : (ℕ → A → Bool) → Option Position → ℕ → Table A → Table A × Option Position
  page p cursor limit t =
      cut_page limit (select (λ i a. p i a && is_after cursor i a) newest_first (limit + 1) t)
