-- ===== src/Table/Page/Order.antt =====
-- The order of a keyset query is strict, and a cursor cuts it where the page before it ended.
use task_forge.Base.{
  ℕ, ◌≡◌, refl, arith, Bool, true, false, ◌&&◌, [], ◌∷◌, ◌++◌, none, some, ◌==◌, Bool-cases, inl,
  inr, ap,
}
use task_forge.Table.{Table, find}
use task_forge.Table.Laws.{IsKeyed}
use task_forge.Table.Scan.{insert_row, ordered, matching}
use task_forge.Table.Page.{Position, precedes, position, newest_first, is_after}

pub precedes_irrefl : (p : Position) → precedes p p ≡ false
precedes_irrefl (a, i) = ground arith

pub precedes_trans :
    (p q r : Position) → precedes p q ≡ true → precedes q r ≡ true → precedes p r ≡ true
precedes_trans (a, i) (b, j) (c, k) h h' = ground arith

pub precedes_asym : (p q : Position) → precedes p q ≡ true → precedes q p ≡ false
precedes_asym (a, i) (b, j) h = ground arith

precedes_total :
    (p q : Position) → (p.1 == q.1) ≡ false → precedes p q ≡ false → precedes q p ≡ true
precedes_total (a, i) (b, j) other h = ground arith

module _ {ℓ} {A : Type ℓ} (at : A → ℕ) where
  -- Every row is older than the position.
  abbrev pub AllBelow : Position → Table A → Type 0
  AllBelow c [] = Unit
  AllBelow c (r ∷ t) = (precedes (position at r) c ≡ true) × AllBelow c t

  -- Each row is newer than all that follow it.
  abbrev pub IsSorted : Table A → Type 0
  IsSorted [] = Unit
  IsSorted (r ∷ t) = AllBelow (position at r) t × IsSorted t

  -- No row has the id.
  abbrev pub Lacks : ℕ → Table A → Type 0
  Lacks i [] = Unit
  Lacks i ((k, a) ∷ t) = ((k == i) ≡ false) × Lacks i t

  pub find-Lacks : (i : ℕ) (t : Table A) → find i t ≡ none → Lacks i t
  unfolding find
  find-Lacks i [] h = tt
  find-Lacks i ((k, a) ∷ t) h = ground (arith, find-Lacks i t)

  AllBelow-trans :
      (c d : Position) (t : Table A) → precedes c d ≡ true → AllBelow c t → AllBelow d t
  AllBelow-trans c d [] h all = tt
  AllBelow-trans c d (r ∷ t) h all =
      (precedes_trans (position at r) c d all.0 h, AllBelow-trans c d t h all.1)

  AllBelow-insert_row :
      (c : Position) (r : ℕ × A) (t : Table A)
      → precedes (position at r) c ≡ true
      → AllBelow c t
      → AllBelow c (insert_row (newest_first at) r t)
  unfolding insert_row
  AllBelow-insert_row c r [] h all = (h, tt)
  AllBelow-insert_row c r (s ∷ t) h all = elim (Bool-cases (newest_first at r s)) [
    | inl hit ↦ rw hit (h, all)
    | inr miss ↦ rw miss (all.0, AllBelow-insert_row c r t h all.1)
  ]

  Lacks-insert_row :
      (i : ℕ) (r : ℕ × A) (t : Table A)
      → (r.0 == i) ≡ false
      → Lacks i t
      → Lacks i (insert_row (newest_first at) r t)
  unfolding insert_row
  Lacks-insert_row i r [] h all = (h, tt)
  Lacks-insert_row i r (s ∷ t) h all = elim (Bool-cases (newest_first at r s)) [
    | inl hit ↦ rw hit (h, all)
    | inr miss ↦ rw miss (all.0, Lacks-insert_row i r t h all.1)
  ]

  IsSorted-insert_row :
      (r : ℕ × A) (t : Table A)
      → Lacks r.0 t
      → IsSorted t
      → IsSorted (insert_row (newest_first at) r t)
  unfolding insert_row
  IsSorted-insert_row r [] apart sorted = (tt, tt)
  IsSorted-insert_row r (s ∷ t) apart sorted = elim (Bool-cases (newest_first at r s)) [
    | inl hit ↦
        rw hit ((hit, AllBelow-trans (position at s) (position at r) t hit sorted.0), sorted)
    | inr miss ↦
        let below : precedes (position at r) (position at s) ≡ true =
          precedes_total (position at s) (position at r) apart.0 miss in
        rw miss (
          AllBelow-insert_row (position at s) r t below sorted.0,
          IsSorted-insert_row r t apart.1 sorted.1,
        )
  ]

  Lacks-ordered : (i : ℕ) (t : Table A) → Lacks i t → Lacks i (ordered (newest_first at) t)
  unfolding ordered
  Lacks-ordered i [] h = tt
  Lacks-ordered i (r ∷ t) h =
      Lacks-insert_row i r (ordered (newest_first at) t) h.0 (Lacks-ordered i t h.1)

  pub ordered-IsSorted : (t : Table A) → IsKeyed t → IsSorted (ordered (newest_first at) t)
  unfolding ordered
  ordered-IsSorted [] keyed = tt
  ordered-IsSorted ((k, a) ∷ t) keyed =
      IsSorted-insert_row (k, a) (ordered (newest_first at) t)
        (Lacks-ordered k t (find-Lacks k t keyed.0)) (ordered-IsSorted t keyed.1)

  AllBelow-matching :
      (c : Position) (p : ℕ → A → Bool) (t : Table A) → AllBelow c t → AllBelow c (matching p t)
  unfolding matching
  AllBelow-matching c p [] all = tt
  AllBelow-matching c p ((k, a) ∷ t) all = elim (Bool-cases (p k a)) [
    | inl hit ↦ rw hit (all.0, AllBelow-matching c p t all.1)
    | inr miss ↦ rw miss (AllBelow-matching c p t all.1)
  ]

  pub matching-IsSorted : (p : ℕ → A → Bool) (t : Table A) → IsSorted t → IsSorted (matching p t)
  unfolding matching
  matching-IsSorted p [] sorted = tt
  matching-IsSorted p ((k, a) ∷ t) sorted = elim (Bool-cases (p k a)) [
    | inl hit ↦ rw hit (AllBelow-matching (at a, k) p t sorted.0, matching-IsSorted p t sorted.1)
    | inr miss ↦ rw miss (matching-IsSorted p t sorted.1)
  ]

  -- The two conditions of a query, one after the other.
  pub matching-matching :
      (p q : ℕ → A → Bool) (t : Table A)
      → matching (λ i a. p i a && q i a) t ≡ matching q (matching p t)
  unfolding matching
  matching-matching p q [] = refl
  matching-matching p q ((k, a) ∷ t) =
      let rest = matching-matching p q t in
      elim (Bool-cases (p k a)) [
        | inr miss ↦ rw (miss, rest) refl
        | inl hit ↦ elim (Bool-cases (q k a)) [
          | inl hit' ↦ rw (matching, hit, hit', rest) refl
          | inr miss ↦ rw (matching, hit, miss, rest) refl
        ]
      ]

  matching_below :
      (c : Position) (t : Table A) → AllBelow c t → matching (is_after at (some c)) t ≡ t
  unfolding matching
  matching_below c [] all = refl
  matching_below c ((k, a) ∷ t) all = rw (all.0, matching_below c t all.1) refl

  AllBelow-mid :
      (c : Position) (s : Table A) (r : ℕ × A) (t : Table A)
      → AllBelow c (s ++ (r ∷ t))
      → precedes (position at r) c ≡ true
  AllBelow-mid c [] r t all = all.0
  AllBelow-mid c (x ∷ s) r t all = AllBelow-mid c s r t all.1

  -- A cursor at a row of the order leaves the rows after it.
  pub matching_after :
      (s : Table A) (r : ℕ × A) (t : Table A)
      → IsSorted (s ++ (r ∷ t))
      → matching (is_after at (some (position at r))) (s ++ (r ∷ t)) ≡ t
  unfolding matching
  matching_after [] r t sorted =
      rw (precedes_irrefl (position at r)) (matching_below (position at r) t sorted.0)
  matching_after ((k, a) ∷ s) r t sorted =
      let newer = precedes_asym (position at r) (at a, k) (AllBelow-mid (at a, k) s r t sorted.0) in
      rw (newer, matching_after s r t sorted.1) refl

  pub matching_all : (t : Table A) → matching (is_after at none) t ≡ t
  unfolding matching
  matching_all [] = refl
  matching_all ((k, a) ∷ t) = ap (λ rest. (k, a) ∷ rest) (matching_all t)
