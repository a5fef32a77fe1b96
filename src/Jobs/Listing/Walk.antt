-- ===== src/Jobs/Listing/Walk.antt =====
-- A client that starts with no cursor and follows the cursors of the pages reaches the last page, and
-- has then seen what one query without a limit would show.
use task_forge.Base.{
  Text, ℕ, zero, suc, ◌≤◌, ◌≡◌, refl, sym, ◌∙◌, arith, ap, ℤ, pos, negsuc, Bool, true, false, List,
  [], ◌∷◌, ◌++◌, map, Option, none, some, text_eq, if◌then◌else◌, inl, inr, take, length, Result,
  ok, err, ◌>>=◌, invalid_argument,
}
use task_forge.Table.{Table}
use task_forge.Table.Laws.{IsKeyed}
use task_forge.Table.Scan.{ordered, matching}
use task_forge.Table.Page.{Position, newest_first, bound_page, page}
use task_forge.Table.Page.Walk.{IsLeft, all_rows, page-IsLeft}
use task_forge.Table.Page.Order.{matching_all}
use task_forge.Schema.{Db}
use task_forge.Auth.Key.Laws.{cut-++}
use task_forge.Jobs.Listing.{
  Formats, JobFilter, valid_filter, listed, summary, created, dlq_summary, buried_in, buried_at,
  encode_cursor, decode_cursor, decoded, list_jobs, list_dlq,
}

module _ {B : Type 0} where
  -- The client's loop: one page after another, until there is no cursor.
  unfoldable pub follow : ℕ → (Text → Result (List B × Text)) → Text → Result (List B)
  follow zero list cursor = err invalid_argument
  follow (suc fuel) list cursor = list cursor >>= λ r.
      if text_eq r.1 [] then ok r.0 else follow fuel list r.1 >>= λ rest. ok (r.0 ++ rest)

  map-++ : {A : Type 0} (f : A → B) (xs ys : List A) → map f (xs ++ ys) ≡ map f xs ++ map f ys
  map-++ f [] ys = refl
  map-++ f (x ∷ xs) ys = ap (λ zs. f x ∷ zs) (map-++ f xs ys)

  module _ {A : Type 0} (at : A → ℕ) (p : ℕ → A → Bool) (t : Table A) (keyed : IsKeyed t)
      (view : ℕ × A → B) (enc : Option Position → Text) (list : Text → Result (List B × Text))
      (m : ℕ) (no_cursor : text_eq (enc none) [] ≡ true)
      (a_cursor : (q : Position) → text_eq (enc (some q)) [] ≡ false)
      (pages : (c : Option Position)
        → list (enc c)
          ≡ ok (map view (page at p c (suc m) t).0, enc (page at p c (suc m) t).1)) where
    follow_left :
        (fuel : ℕ) (c : Option Position) (rest : Table A)
        → IsLeft at p t keyed c rest
        → length rest ≤ fuel
        → follow (suc fuel) list (enc c) ≡ ok (map view rest)
    unfolding follow
    follow_left zero c rest left enough = elim (page-IsLeft at p t keyed c m rest left) [
      | inl over ↦ rw (follow, pages c, over, no_cursor) refl
      | inr (c', rest', this, parts, fewer, left') ↦ ground (arith, fewer, enough)
    ]
    follow_left (suc fuel) c rest left enough = elim (page-IsLeft at p t keyed c m rest left) [
      | inl over ↦ rw (follow, pages c, over, no_cursor) refl
      | inr (c', rest', this, parts, fewer, left') ↦
          let later = follow_left fuel (some c') rest' left' (omega (arith, fewer, enough)) in
          let whole : map view (take (suc m) rest) ++ map view rest' ≡ map view rest =
            sym (map-++ view (take (suc m) rest) rest') ∙ ap (map view) parts in
          rw (follow, pages c, this, a_cursor c', later) (ap (λ ys. ok ys) whole)
    ]

    -- From the first page on.
    follow_all :
        (fuel : ℕ)
        → length (all_rows at p t keyed) ≤ fuel
        → follow (suc fuel) list (enc none) ≡ ok (map view (all_rows at p t keyed))
    follow_all fuel enough =
        follow_left fuel none (all_rows at p t keyed)
          (matching_all at (all_rows at p t keyed), ([], refl)) enough

is_suc : (n : ℕ) → 1 ≤ n → (m : ℕ) × (n ≡ suc m)
is_suc zero h = ground (arith, h)
is_suc (suc m) h = (m, refl)

bound_page-positive : (limit : ℤ) → (m : ℕ) × (bound_page 25 100 limit ≡ suc m)
unfolding bound_page
bound_page-positive (pos n) = is_suc (bound_page 25 100 (pos n)) (ground arith)
bound_page-positive (negsuc n) = (24, refl)

bar_not_empty : (s t : Text) → text_eq (s ++ (124 ∷ t)) [] ≡ false
unfolding text_eq
bar_not_empty [] t = refl
bar_not_empty (c ∷ s) t = refl

module _ (fm : Formats) where
  cursor_not_empty : (q : Position) → text_eq (encode_cursor fm (some q)) [] ≡ false
  unfolding encode_cursor
  cursor_not_empty (at, id) =
      fm.not_empty (fm.stamp at ++ (124 ∷ fm.show_id id))
        (bar_not_empty (fm.stamp at) (fm.show_id id))

  -- A cursor that a page carried is read back as the position it stands for.
  pub decode_cursor-encode_cursor :
      (c : Option Position) → decode_cursor fm (encode_cursor fm c) ≡ some c
  unfolding decode_cursor encode_cursor text_eq
  decode_cursor-encode_cursor none = refl
  decode_cursor-encode_cursor (some (at, id)) =
      let s = fm.stamp at in
      let u = fm.show_id id in
      let there = cursor_not_empty (at, id) in
      rw
        (
          decode_cursor,
          there,
          decoded,
          encode_cursor,
          fm.decodes (s ++ (124 ∷ u)),
          cut-++ 124 s u (fm.no_bar at),
          fm.parses_stamp at,
          fm.parses_id id,
        )
        refl

  jobs_page :
      (db : Db) (scope : Text) (f : JobFilter) (limit : ℤ) (m : ℕ) (c : Option Position)
      → valid_filter f ≡ true
      → bound_page 25 100 limit ≡ suc m
      → list_jobs fm db scope f limit (encode_cursor fm c)
        ≡ ok (
          map summary (page created (listed scope f) c (suc m) db.jobs).0,
          encode_cursor fm (page created (listed scope f) c (suc m) db.jobs).1,
        )
  unfolding list_jobs
  jobs_page db scope f limit m c good size =
      rw (list_jobs, good, decode_cursor-encode_cursor c, size) refl

  dlq_page :
      (db : Db) (scope : Text) (limit : ℤ) (m : ℕ) (c : Option Position)
      → bound_page 25 100 limit ≡ suc m
      → list_dlq fm db scope limit (encode_cursor fm c)
        ≡ ok (
          map (dlq_summary db) (page buried_at (buried_in db scope) c (suc m) db.dlq).0,
          encode_cursor fm (page buried_at (buried_in db scope) c (suc m) db.dlq).1,
        )
  unfolding list_dlq
  dlq_page db scope limit m c size = rw (list_dlq, decode_cursor-encode_cursor c, size) refl

  -- For a filter that is accepted, a client that follows the cursors of GET /v1/jobs gets to the last
  -- page within one page more than there are rows, with every job that the filter names once, newest
  -- first, whatever limit it asks for, where the jobs do not change meanwhile.
  pub list_jobs_walk :
      (db : Db) (scope : Text) (f : JobFilter) (limit : ℤ) (fuel : ℕ)
      → IsKeyed db.jobs
      → valid_filter f ≡ true
      → length (matching (listed scope f) (ordered (newest_first created) db.jobs)) ≤ fuel
      → follow (suc fuel) (list_jobs fm db scope f limit) []
        ≡ ok (map summary (matching (listed scope f) (ordered (newest_first created) db.jobs)))
  unfolding encode_cursor text_eq
  list_jobs_walk db scope f limit fuel keyed good enough =
      let (m, size) = bound_page-positive limit in
      follow_all created (listed scope f) db.jobs keyed summary (encode_cursor fm)
        (list_jobs fm db scope f limit) m refl cursor_not_empty
        (λ c. jobs_page db scope f limit m c good size) fuel enough

  -- The same of the dead-letter entries of a scope.
  pub list_dlq_walk :
      (db : Db) (scope : Text) (limit : ℤ) (fuel : ℕ)
      → IsKeyed db.dlq
      → length (matching (buried_in db scope) (ordered (newest_first buried_at) db.dlq)) ≤ fuel
      → follow (suc fuel) (list_dlq fm db scope limit) []
        ≡ ok (
            map
              (dlq_summary db)
              (matching (buried_in db scope) (ordered (newest_first buried_at) db.dlq)))
  unfolding encode_cursor text_eq
  list_dlq_walk db scope limit fuel keyed enough =
      let (m, size) = bound_page-positive limit in
      follow_all buried_at (buried_in db scope) db.dlq keyed (dlq_summary db) (encode_cursor fm)
        (list_dlq fm db scope limit) m refl cursor_not_empty (λ c. dlq_page db scope limit m c size)
        fuel enough
