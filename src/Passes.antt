-- ===== src/Passes.antt =====
-- A pass of the scheduler or the reconciler: a scan for candidates, and one transaction for each.
-- Every transaction decides anew, so other processes may write in between.
pub mod Scheduler
pub mod Reconciler
pub mod Accounts
pub mod Promotions
use task_forge.Base.{
  ℕ, Bool, true, false, ℤ, pos, negsuc, Option, none, some, List, [], ◌∷◌, ltb, Error, Result, ok,
  err, ◌==◌, if◌then◌else◌, database_error, invalid_argument,
}
use task_forge.Schema.{Db}

-- What one scan of a pass met: its clock, what other processes did before the scan and before each
-- candidate, the candidates whose transaction could not begin, and what each of the rest drew.
pub record Scan (D : Type 0) : Type 0 where
  pub scanned_at : ℕ
  pub before : Db → Db
  pub others : ℕ → Db → Db
  pub broken : ℕ → Bool
  pub draw : ℕ → D

-- The database after a pass, its counts, and the error that ended it.
pub record Pass (S : Type 0) : Type 0 where
  pub db : Db
  pub stats : S
  pub error : Option Error

abbrev pub refused : {S : Type 0} → Db → S → Pass S
refused db s = record { db = db; stats = s; error = some invalid_argument }

-- A duration or a limit that is at least one.
abbrev pub positive : ℤ → Option ℕ
positive (pos n) = if n == 0 then none else some n
positive (negsuc n) = none

-- ORDER BY an instant, then the id.
abbrev pub earlier : ℕ → ℕ → ℕ → ℕ → Bool
earlier a i b k = if ltb a b then true else if ltb b a then false else ltb i k

module _ {S : Type 0} {D : Type 0} (handle : ℕ → D → Db → S → Result (Db × S)) (w : Scan D) where
  -- One candidate's transaction.
  abbrev pub attempt : ℕ → Db → S → Result (Db × S)
  attempt id db s = if w.broken id then err database_error else handle id (w.draw id) db s

  unfoldable pub for_each : List ℕ → Db → S → Pass S
  for_each [] db s = record { db = db; stats = s; error = none }
  for_each (id ∷ ids) db s = elim (attempt id (w.others id db) s) [
    | err e ↦ record { db = w.others id db; stats = s; error = some e }
    | ok r ↦ for_each ids r.0 r.1
  ]
