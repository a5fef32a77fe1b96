-- ===== src/Table/Page/Walk.antt =====
-- A client that follows the cursors from page to page sees every row of the query once, in order.
use task_forge.Base.{
  ℕ, zero, suc, ◌+◌, ◌≤◌, ◌<◌, ◌≡◌, ◌⊎◌, refl, sym, ◌∙◌, arith, ap, subst, Bool, true, ◌&&◌, List,
  [], ◌∷◌, ◌++◌, Option, none, some, ltb, ltb→lt, Bool-cases, inl, inr, take, drop, length,
}
use task_forge.Table.{Table}
use task_forge.Table.Laws.{IsKeyed}
use task_forge.Table.Scan.{ordered, matching, select}
use task_forge.Table.Page.{
  Position, position, newest_first, is_after, last_position, cut_page, page,
}
use task_forge.Table.Page.Order.{
  IsSorted, ordered-IsSorted, matching-IsSorted, matching-matching, matching_after,
}

module _ {ℓ} {A : Type ℓ} where
  take_all : (n : ℕ) (xs : List A) → length xs ≤ n → take n xs ≡ xs
  take_all zero [] h = refl
  take_all zero (x ∷ xs) h = ground arith
  take_all (suc n) [] h = refl
  take_all (suc n) (x ∷ xs) h = ap (λ ys. x ∷ ys) (take_all n xs (omega (arith, h)))

  take-take : (n : ℕ) (xs : List A) → take n (take (suc n) xs) ≡ take n xs
  take-take zero xs = refl
  take-take (suc n) [] = refl
  take-take (suc n) (x ∷ xs) = ap (λ ys. x ∷ ys) (take-take n xs)

  take-++-drop : (n : ℕ) (xs : List A) → take n xs ++ drop n xs ≡ xs
  take-++-drop zero xs = refl
  take-++-drop (suc n) [] = refl
  take-++-drop (suc n) (x ∷ xs) = ap (λ ys. x ∷ ys) (take-++-drop n xs)

  length-drop-lt : (n : ℕ) (xs : List A) → suc n ≤ length xs → length (drop (suc n) xs) < length xs
  length-drop-lt n [] h = ground (arith, h)
  length-drop-lt zero (x ∷ xs) h = omega arith
  length-drop-lt (suc n) (x ∷ xs) h = omega (arith, length-drop-lt n xs (omega (arith, h)))

  length-take_more : (n : ℕ) (xs : List A) → n < length (take (suc n) xs) → n < length xs
  length-take_more zero [] h = h
  length-take_more zero (x ∷ xs) h = omega arith
  length-take_more (suc n) [] h = ground (arith, h)
  length-take_more (suc n) (x ∷ xs) h = omega (arith, length-take_more n xs (omega (arith, h)))

  length-take_few : (n : ℕ) (xs : List A) → length (take (suc n) xs) ≤ n → length xs ≤ n
  length-take_few zero [] h = h
  length-take_few zero (x ∷ xs) h = ground (arith, h)
  length-take_few (suc n) [] h = omega arith
  length-take_few (suc n) (x ∷ xs) h = omega (arith, length-take_few n xs (omega (arith, h)))

  ++_assoc : (xs ys zs : List A) → (xs ++ ys) ++ zs ≡ xs ++ (ys ++ zs)
  ++_assoc [] ys zs = refl
  ++_assoc (x ∷ xs) ys zs = ap (λ ws. x ∷ ws) (++_assoc xs ys zs)

module _ {ℓ} {A : Type ℓ} (at : A → ℕ) (p : ℕ → A → Bool) (t : Table A) (keyed : IsKeyed t) where
  -- The rows of the query, in its order.
  abbrev pub all_rows : Table A
  all_rows = matching p (ordered (newest_first at) t)

  -- What is left of the rows after a cursor.
  abbrev pub IsLeft : Option Position → Table A → Type ℓ
  IsLeft c rest =
      (matching (is_after at c) all_rows ≡ rest) × ((seen : Table A) × (all_rows ≡ seen ++ rest))

  -- The last row of a page that has one.
  last_row :
      (r : ℕ × A) (s : Table A)
      → (init : Table A) × (last : ℕ × A) × ((r ∷ s) ≡ init ++ (last ∷ []))
        × (last_position at (r ∷ s) ≡ some (position at last))
  last_row r [] = ([], r, refl, refl)
  last_row r (x ∷ s) =
      let (init, last, shape, at_last) = last_row x s in
      (r ∷ init, last, ap (λ ys. r ∷ ys) shape, at_last)

  page_of :
      (c : Option Position) (limit : ℕ) (rest : Table A)
      → IsLeft c rest
      → page at p c limit t ≡ cut_page at limit (take (suc limit) rest)
  unfolding page select
  page_of c limit rest left =
      let more : limit + 1 ≡ suc limit = omega arith in
      let rows : matching (λ i a. p i a && is_after at c i a) (ordered (newest_first at) t) ≡ rest =
        matching-matching at p (is_after at c) (ordered (newest_first at) t) ∙ left.0 in
      rw (page, select, more, rows) refl

  cut_more :
      (limit : ℕ) (rows short : Table A)
      → ltb limit (length rows) ≡ true
      → take limit rows ≡ short
      → cut_page at limit rows ≡ (short, last_position at short)
  cut_more limit rows short more same = rw (more, same) refl

  cut-IsLeft :
      (c : Option Position) (m : ℕ) (rest : Table A)
      → IsLeft c rest
      → suc m < length rest
      → ltb (suc m) (length (take (suc (suc m)) rest)) ≡ true
      → (c' : Position) × (rest' : Table A) × (page at p c (suc m) t ≡ (take (suc m) rest, some c'))
        × (take (suc m) rest ++ rest' ≡ rest)
        × (length rest' < length rest)
        × IsLeft (some c') rest'
  cut-IsLeft c m [] left big more = ground (arith, big)
  cut-IsLeft c m (x ∷ xs) left big more =
      let rest = x ∷ xs in
      let rest' = drop m xs in
      let (init, last, shape, at_last) = last_row x (take m xs) in
      let parts = take-++-drop (suc m) rest in
      let tail : rest ≡ init ++ (last ∷ rest') =
        sym parts ∙ ap (λ ys. ys ++ rest') shape ∙ ++_assoc init (last ∷ []) rest' in
      let same : take (suc m) (take (suc (suc m)) rest) ≡ x ∷ take m xs = take-take (suc m) rest in
      let row : cut_page at (suc m) (take (suc (suc m)) rest)
          ≡ (x ∷ take m xs, some (position at last)) =
        cut_more (suc m) (take (suc (suc m)) rest) (x ∷ take m xs) more same
        ∙ ap (λ o. (x ∷ take m xs, o)) at_last in
      let whole : all_rows ≡ (left.1.0 ++ init) ++ (last ∷ rest') =
        left.1.1 ∙ ap (λ ys. left.1.0 ++ ys) tail ∙ sym (++_assoc left.1.0 init (last ∷ rest')) in
      let sorted =
        matching-IsSorted at p (ordered (newest_first at) t) (ordered-IsSorted at t keyed) in
      let cut : matching (is_after at (some (position at last))) all_rows ≡ rest' =
        subst (λ o. matching (is_after at (some (position at last))) o ≡ rest') (sym whole)
          (matching_after at (left.1.0 ++ init) last rest' (subst (IsSorted at) whole sorted)) in
      (
        position at last,
        rest',
        page_of c (suc m) rest left ∙ row,
        parts,
        length-drop-lt m rest (omega (arith, big)),
        (
          cut,
          (
            left.1.0 ++ (x ∷ take m xs),
            left.1.1
                ∙ ap (λ ys. left.1.0 ++ ys) (sym parts)
                ∙ sym (++_assoc left.1.0 (x ∷ take m xs) rest'),
          ),
        ),
      )

  -- What a page leaves: nothing, or fewer rows after a cursor.
  pub page-IsLeft :
      (c : Option Position) (m : ℕ) (rest : Table A)
      → IsLeft c rest
      → (page at p c (suc m) t ≡ (rest, none))
        ⊎ ((c' : Position) × (rest' : Table A) × (page at p c (suc m) t
              ≡ (take (suc m) rest, some c'))
            × (take (suc m) rest ++ rest' ≡ rest)
            × (length rest' < length rest)
            × IsLeft (some c') rest')
  page-IsLeft c m rest left = elim (Bool-cases (ltb (suc m) (length (take (suc (suc m)) rest)))) [
    | inr few ↦
        let all : take (suc (suc m)) rest ≡ rest =
          take_all (suc (suc m)) rest
            (omega (arith, length-take_few (suc m) rest (ground (arith, few)))) in
        inl (page_of c (suc m) rest left ∙ rw (few, all) refl)
    | inl more ↦
        let big =
          length-take_more (suc m) rest (ltb→lt (suc m) (length (take (suc (suc m)) rest)) more) in
        inr (cut-IsLeft c m rest left big more)
  ]
