-- ===== src/Table/Laws.antt =====
-- How `find` and `count` see a write.
use task_forge.Base.{
  Result, ok, Error, ◌>>=◌, or_fail, or_fail_ok, ℕ, ◌+◌, ◌≤◌, ◌≡◌, refl, Bool, true, [], ◌∷◌,
  Option, none, some, ◌==◌, if◌then◌else◌, bit, arith,
}
use task_forge.Table.{Table, find, put, count, update, insert, find_if, find_where}

module _ {ℓ} {A : Type ℓ} where
  pub find-put :
      (i j : ℕ) (a : A) (t : Table A) → find j (put i a t) ≡ (if i == j then some a else find j t)
  unfolding find put
  find-put i j a [] = refl
  find-put i j a ((k, b) ∷ t) = ground (arith, find-put i j a t)

  pub find-put_self : (i : ℕ) (a : A) (t : Table A) → find i (put i a t) ≡ some a
  find-put_self i a t = ground (arith, find-put i i a t)

  -- What the row behind a key adds to a count.
  abbrev pub weight : (A → Bool) → Option A → ℕ
  weight p none = 0
  weight p (some a) = bit (p a)

  pub count-put :
      (p : A → Bool) (i : ℕ) (a : A) (t : Table A)
      → count p (put i a t) + weight p (find i t) ≡ count p t + bit (p a)
  unfolding find put count
  count-put p i a [] = omega arith
  count-put p i a ((k, b) ∷ t) = ground (arith, count-put p i a t)

  pub weight-le-count : (p : A → Bool) (i : ℕ) (t : Table A) → weight p (find i t) ≤ count p t
  unfolding find count
  weight-le-count p i [] = omega arith
  weight-le-count p i ((k, b) ∷ t) = ground (arith, weight-le-count p i t)

  -- A row that an UPDATE affected was there and met the condition.
  pub update-eq-some :
      (i : ℕ) (p : A → Bool) (f : A → A) (t : Table A) {t' : Table A}
      → update i p f t ≡ some t'
      → (a : A) × (find i t ≡ some a) × (p a ≡ true) × (t' ≡ put i (f a) t)
  unfolding update
  update-eq-some i p f t h = ground arith

  pub update_hit :
      (i : ℕ) (p : A → Bool) (f : A → A) (t : Table A) (a : A)
      → find i t ≡ some a
      → p a ≡ true
      → update i p f t ≡ some (put i (f a) t)
  unfolding update
  update_hit i p f t a h k = ground arith

  pub find_if-eq-some :
      (i : ℕ) (p : A → Bool) (t : Table A) {a : A}
      → find_if i p t ≡ some a
      → (find i t ≡ some a) × (p a ≡ true)
  unfolding find_if
  find_if-eq-some i p t h = ground arith

  pub find_if_hit :
      (i : ℕ) (p : A → Bool) (t : Table A) (a : A)
      → find i t ≡ some a
      → p a ≡ true
      → find_if i p t ≡ some a
  unfolding find_if
  find_if_hit i p t a h k = ground arith

  pub insert-eq-some :
      (i : ℕ) (a : A) (t : Table A) {t' : Table A}
      → insert i a t ≡ some t'
      → (find i t ≡ none) × (t' ≡ put i a t)
  insert-eq-some i a t h = ground arith

  pub insert_hit : (i : ℕ) (a : A) (t : Table A) → find i t ≡ none → insert i a t ≡ some (put i a t)
  insert_hit i a t h = ground arith

  -- Primary keys are distinct.
  abbrev pub IsKeyed : Table A → Type ℓ
  IsKeyed [] = Unit
  IsKeyed ((k, a) ∷ t) = (find k t ≡ none) × IsKeyed t

  pub put-IsKeyed : (i : ℕ) (a : A) (t : Table A) → IsKeyed t → IsKeyed (put i a t)
  unfolding put find
  put-IsKeyed i a [] h = (refl, tt)
  put-IsKeyed i a ((k, b) ∷ t) h = ground (arith, put-IsKeyed i a t h.1, find-put i k a t)

  pub find_where-eq-some :
      (p : A → Bool) (t : Table A) (k : ℕ) (a : A)
      → find_where p t ≡ some (k, a)
      → IsKeyed t
      → (find k t ≡ some a) × (p a ≡ true)
  unfolding find_where find
  find_where-eq-some p [] k a e h = cc
  find_where-eq-some p ((i, b) ∷ t) k a e h = ground (arith, find_where-eq-some p t k a)

-- The rules for a chain of statements, over what each table operation found.
module _ {ℓ κ μ} {A : Type ℓ} {B : Type κ} {G : Type μ} {v : B} where
  pub update_ok :
      (i : ℕ) (p : A → Bool) (f : A → A) (t : Table A) (e : Error) (k : Table A → Result B)
      → (or_fail (update i p f t) e >>= k) ≡ ok v
      → ((a : A) → find i t ≡ some a → p a ≡ true → k (put i (f a) t) ≡ ok v → G)
      → G
  update_ok i p f t e k h next = or_fail_ok (update i p f t) e k h λ t' done rest.
      let (a, found, hit, same) = update-eq-some i p f t done in next a found hit (rw same at rest)

  pub insert_ok :
      (i : ℕ) (a : A) (t : Table A) (e : Error) (k : Table A → Result B)
      → (or_fail (insert i a t) e >>= k) ≡ ok v
      → (find i t ≡ none → k (put i a t) ≡ ok v → G)
      → G
  insert_ok i a t e k h next =
      or_fail_ok (insert i a t) e k h
        λ t' done rest. let (free, same) = insert-eq-some i a t done in next free (rw same at rest)

  pub find_if_ok :
      (i : ℕ) (p : A → Bool) (t : Table A) (e : Error) (k : A → Result B)
      → (or_fail (find_if i p t) e >>= k) ≡ ok v
      → ((a : A) → find i t ≡ some a → p a ≡ true → k a ≡ ok v → G)
      → G
  find_if_ok i p t e k h next =
      or_fail_ok (find_if i p t) e k h
        λ a done rest. let (found, hit) = find_if-eq-some i p t done in next a found hit rest
