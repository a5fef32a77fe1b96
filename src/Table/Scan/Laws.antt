-- ===== src/Table/Scan/Laws.antt =====
-- What a scan finds, and what an update of the rows it found leaves as it was.
use task_forge.Base.{
  ℕ, ◌≤◌, ◌≡◌, refl, ◌∙◌, arith, Bool, true, List, [], ◌∷◌, take, length, length-take-le,
  Option-cases, Bool-cases, inl, inr,
}
use task_forge.Table.{Table, find, put, count, update}
use task_forge.Table.Laws.{find-put, count-put, weight}
use task_forge.Table.Scan.{ordered, matching, keys, select, touch, touch_all}

module _ {ℓ} {A : Type ℓ} where
  -- A condition that a write does not change counts the same rows.
  pub count-touch :
      (p : A → Bool) (k : ℕ) (q : A → Bool) (f : A → A) (t : Table A)
      → ((a : A) → p (f a) ≡ p a)
      → count p (touch k q f t) ≡ count p t
  unfolding touch update
  count-touch p k q f t same = elim (Option-cases (find k t)) [
    | inl gone ↦ rw gone refl
    | inr (a, here) ↦ elim (Bool-cases (q a)) [
      | inl hit ↦
          let written : count p (put k (f a) t) ≡ count p t =
            ground (arith, here, count-put p k (f a) t, same a) in
          rw (here, hit) written
      | inr miss ↦ rw (here, miss) refl
    ]
  ]

  pub count-touch_all :
      (p : A → Bool) (ks : List ℕ) (f : A → A) (t : Table A)
      → ((a : A) → p (f a) ≡ p a)
      → count p (touch_all ks f t) ≡ count p t
  unfolding touch_all
  count-touch_all p [] f t same = refl
  count-touch_all p (k ∷ ks) f t same =
      count-touch_all p ks f (touch k (λ _. true) f t) same ∙ count-touch p k (λ _. true) f t same

  pub length-keys : (t : Table A) → length (keys t) ≡ length t
  length-keys [] = refl
  length-keys (r ∷ t) = omega (arith, length-keys t)

  pub length-select-le :
      (p : ℕ → A → Bool) (before : ℕ × A → ℕ × A → Bool) (limit : ℕ) (t : Table A)
      → length (keys (select p before limit t)) ≤ limit
  unfolding select
  length-select-le p before limit t =
      let rows = take limit (matching p (ordered before t)) in
      omega (arith, length-keys rows, length-take-le limit (matching p (ordered before t)))

  -- A condition that a write does not change holds of the same rows.
  pub weight-touch :
      (p : A → Bool) (k i : ℕ) (q : A → Bool) (f : A → A) (t : Table A)
      → ((a : A) → p (f a) ≡ p a)
      → weight p (find i (touch k q f t)) ≡ weight p (find i t)
  unfolding touch update
  weight-touch p k i q f t same = elim (Option-cases (find k t)) [
    | inl gone ↦ rw gone refl
    | inr (a, here) ↦ elim (Bool-cases (q a)) [
      | inl hit ↦
          let written : weight p (find i (put k (f a) t)) ≡ weight p (find i t) =
            ground (arith, here, find-put k i (f a) t, same a) in
          rw (here, hit) written
      | inr miss ↦ rw (here, miss) refl
    ]
  ]

  pub weight-touch_all :
      (p : A → Bool) (ks : List ℕ) (i : ℕ) (f : A → A) (t : Table A)
      → ((a : A) → p (f a) ≡ p a)
      → weight p (find i (touch_all ks f t)) ≡ weight p (find i t)
  unfolding touch_all
  weight-touch_all p [] i f t same = refl
  weight-touch_all p (k ∷ ks) i f t same =
      weight-touch_all p ks i f (touch k (λ _. true) f t) same
      ∙ weight-touch p k i (λ _. true) f t same
