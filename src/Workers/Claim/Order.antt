-- ===== src/Workers/Claim/Order.antt =====
-- The job that a claim takes is the first of the eligible ones.
use task_forge.Base.{
  ℕ, ◌≡◌, arith, subst, Bool, true, false, ◌==◌, Option, none, some, [], ◌∷◌, if◌then◌else◌,
  Bool-cases, Option-cases, inl, inr, ◌⊎◌,
}
use task_forge.Table.{Table, find}
use task_forge.Schema.{Job}
use task_forge.Workers.Claim.{first_job, better, comes_before}

comes_before_trans :
    (a b c : ℕ × Job)
    → comes_before a b ≡ false
    → comes_before b c ≡ false
    → comes_before a c ≡ false
unfolding comes_before
comes_before_trans a b c h k = ground arith

comes_before_irrefl : (a : ℕ × Job) → comes_before a a ≡ false
unfolding comes_before
comes_before_irrefl a = ground arith

comes_before_asym : (a b : ℕ × Job) → comes_before a b ≡ true → comes_before b a ≡ false
unfolding comes_before
comes_before_asym a b h = ground arith

pair : {i k : ℕ} {j b : Job} → i ≡ k → j ≡ b → ◌≡◌ {A = ℕ × Job} (i, j) (k, b)
pair e f = cc (e, f)

-- The choice between a row and the rest comes after neither.
chosen_first :
    (hit : Bool) (head c : ℕ × Job) (rest : Option (ℕ × Job))
    → (if hit then better head rest else rest) ≡ some c
    → hit ≡ true
    → comes_before head c ≡ false
chosen_first false head c rest e h = cc
chosen_first true head c none e h =
    let same : head ≡ c = ground arith in
    subst (λ x. comes_before head x ≡ false) same (comes_before_irrefl head)
chosen_first true head c (some x) e h = elim (Bool-cases (comes_before x head)) [
  | inl first ↦
      let same : x ≡ c = ground (arith, first, e) in
      subst (λ y. comes_before head y ≡ false) same (comes_before_asym x head first)
  | inr last ↦
      let same : head ≡ c = ground (arith, last, e) in
      subst (λ y. comes_before head y ≡ false) same (comes_before_irrefl head)
]

chosen_rest :
    (hit : Bool) (head c x : ℕ × Job)
    → (if hit then better head (some x) else some x) ≡ some c
    → comes_before x c ≡ false
chosen_rest false head c x e =
    let same : x ≡ c = ground arith in
    subst (λ y. comes_before x y ≡ false) same (comes_before_irrefl x)
chosen_rest true head c x e = elim (Bool-cases (comes_before x head)) [
  | inl first ↦
      let same : x ≡ c = ground (arith, first, e) in
      subst (λ y. comes_before x y ≡ false) same (comes_before_irrefl x)
  | inr last ↦
      let same : head ≡ c = ground (arith, last, e) in
      subst (λ y. comes_before x y ≡ false) same last
]

find_in_tail :
    (k i : ℕ) (b j : Job) (t : Table Job)
    → find k ((i, j) ∷ t) ≡ some b
    → ((i ≡ k) × (j ≡ b)) ⊎ (find k t ≡ some b)
unfolding find
find_in_tail k i b j t h = elim (Bool-cases (i == k)) [
  | inl same ↦ inl (ground (arith, same), ground (arith, same))
  | inr other ↦ inr (ground (arith, other))
]

-- Where no job is chosen, no job of the table meets the condition.
pub first_job-none :
    (p : ℕ → Job → Bool) (t : Table Job) (k : ℕ) (b : Job)
    → first_job p t ≡ none
    → find k t ≡ some b
    → p k b ≡ false
unfolding first_job find
first_job-none p [] k b e f = cc
first_job-none p ((i, j) ∷ t) k b e f = elim (Bool-cases (p i j)) [
  | inl hit ↦ elim (Option-cases (first_job p t)) [
    | inl nothing ↦ ground (arith, hit, nothing)
    | inr (c, found) ↦ ground (arith, hit, found)
  ]
  | inr miss ↦
      let later : first_job p t ≡ none = ground (arith, miss) in
      elim (find_in_tail k i b j t f) [
        | inl (here, same) ↦ subst (λ (c : ℕ × Job). p c.0 c.1 ≡ false) (pair here same) miss
        | inr there ↦ first_job-none p t k b later there
      ]
]

-- The job that is chosen comes, in the order of priority, availability, creation and id, after no
-- job of the table that meets the condition.
pub first_job_is_first :
    (p : ℕ → Job → Bool) (t : Table Job) (c : ℕ × Job) (k : ℕ) (b : Job)
    → first_job p t ≡ some c
    → find k t ≡ some b
    → p k b ≡ true
    → comes_before (k, b) c ≡ false
unfolding first_job
first_job_is_first p [] c k b e f h = cc
first_job_is_first p ((i, j) ∷ t) c k b e f h = elim (find_in_tail k i b j t f) [
  | inl (here, same) ↦
      subst (λ (x : ℕ × Job). p x.0 x.1 ≡ true → comes_before x c ≡ false) (pair here same)
        (chosen_first (p i j) (i, j) c (first_job p t) e) h
  | inr there ↦ elim (Option-cases (first_job p t)) [
    | inl nothing ↦ let miss = first_job-none p t k b nothing there in cc
    | inr (x, found) ↦
        comes_before_trans (k, b) x c (first_job_is_first p t x k b found there h)
          (chosen_rest (p i j) (i, j) c x (rw found at e))
  ]
]
