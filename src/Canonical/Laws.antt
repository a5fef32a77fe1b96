-- ===== src/Canonical/Laws.antt =====
-- The canonical form depends on the members only.
use task_forge.Base.{
  Text, ◌≡◌, refl, sym, ◌∙◌, arith, ap, subst, Bool, true, false, ◌||◌, List, [], ◌∷◌, text_eq,
  text_eq_refl, eq_of_text_eq, if◌then◌else◌, trim_space, Bool-cases, inl, inr,
}
use task_forge.Canonical.{text_lt, add_name, has_name, canonical_set}

pub text_lt_irrefl : (s : Text) → text_lt s s ≡ false
unfolding text_lt
text_lt_irrefl [] = refl
text_lt_irrefl (a ∷ s) = ground (arith, text_lt_irrefl s)

pub text_lt_trans : (s t u : Text) → text_lt s t ≡ true → text_lt t u ≡ true → text_lt s u ≡ true
unfolding text_lt
text_lt_trans [] [] u h h' = cc
text_lt_trans [] (b ∷ t) [] h h' = cc
text_lt_trans [] (b ∷ t) (c ∷ u) h h' = refl
text_lt_trans (a ∷ s) [] u h h' = cc
text_lt_trans (a ∷ s) (b ∷ t) [] h h' = cc
text_lt_trans (a ∷ s) (b ∷ t) (c ∷ u) h h' = ground (arith, h, h', text_lt_trans s t u)

pub text_lt_total : (s t : Text) → text_lt s t ≡ false → text_eq s t ≡ false → text_lt t s ≡ true
unfolding text_lt text_eq
text_lt_total [] [] h h' = cc
text_lt_total [] (b ∷ t) h h' = cc
text_lt_total (a ∷ s) [] h h' = refl
text_lt_total (a ∷ s) (b ∷ t) h h' = ground (arith, h, h', text_lt_total s t)

-- Every member comes after the name.
abbrev pub AllAfter : Text → List Text → Type 0
AllAfter v [] = Unit
AllAfter v (x ∷ xs) = (text_lt v x ≡ true) × AllAfter v xs

abbrev pub Ascends : List Text → Type 0
Ascends [] = Unit
Ascends (x ∷ xs) = AllAfter x xs × Ascends xs

AllAfter-trans : (v w : Text) (xs : List Text) → text_lt v w ≡ true → AllAfter w xs → AllAfter v xs
AllAfter-trans v w [] h all = tt
AllAfter-trans v w (x ∷ xs) h all = (text_lt_trans v w x h all.0, AllAfter-trans v w xs h all.1)

AllAfter-add_name :
    (v w : Text) (xs : List Text) → text_lt v w ≡ true → AllAfter v xs → AllAfter v (add_name w xs)
unfolding add_name
AllAfter-add_name v w [] h all = (h, tt)
AllAfter-add_name v w (x ∷ xs) h all = elim (Bool-cases (text_lt w x)) [
  | inl hit ↦ rw hit (h, all)
  | inr miss ↦ elim (Bool-cases (text_eq w x)) [
    | inl same ↦ rw (miss, same) all
    | inr other ↦ rw (miss, other) (all.0, AllAfter-add_name v w xs h all.1)
  ]
]

pub add_name-Ascends : (v : Text) (xs : List Text) → Ascends xs → Ascends (add_name v xs)
unfolding add_name
add_name-Ascends v [] up = (tt, tt)
add_name-Ascends v (x ∷ xs) up = elim (Bool-cases (text_lt v x)) [
  | inl hit ↦ rw hit ((hit, AllAfter-trans v x xs hit up.0), up)
  | inr miss ↦ elim (Bool-cases (text_eq v x)) [
    | inl same ↦ rw (miss, same) up
    | inr other ↦
        rw (miss, other)
          (AllAfter-add_name x v xs (text_lt_total v x miss other) up.0, add_name-Ascends v xs up.1)
  ]
]

pub has_name-add_name :
    (u v : Text) (xs : List Text) → has_name u (add_name v xs) ≡ (text_eq v u || has_name u xs)
unfolding add_name has_name
has_name-add_name u v [] = refl
has_name-add_name u v (x ∷ xs) = elim (Bool-cases (text_lt v x)) [
  | inl hit ↦ rw hit refl
  | inr miss ↦ elim (Bool-cases (text_eq v x)) [
    | inl same ↦ rw (miss, same, eq_of_text_eq v x same) (ground (arith))
    | inr other ↦ rw (miss, other) (ground (arith, has_name-add_name u v xs))
  ]
]

has_name-AllAfter :
    (v : Text) (u : Text) (xs : List Text)
    → AllAfter v xs
    → has_name u xs ≡ true
    → text_lt v u ≡ true
unfolding has_name
has_name-AllAfter v u [] all h = cc
has_name-AllAfter v u (x ∷ xs) all h = elim (Bool-cases (text_eq x u)) [
  | inl same ↦ subst (λ y. text_lt v y ≡ true) (eq_of_text_eq x u same) all.0
  | inr other ↦ has_name-AllAfter v u xs all.1 (ground (arith, other, h))
]

head-has_name :
    (x y : Text) (ys : List Text)
    → AllAfter y ys
    → has_name x (y ∷ ys) ≡ true
    → text_eq y x ≡ false
    → text_lt y x ≡ true
unfolding has_name
head-has_name x y ys after h other = has_name-AllAfter y x ys after (ground (arith, h, other))

heads_agree :
    (x y : Text) (xs ys : List Text)
    → AllAfter x xs
    → AllAfter y ys
    → has_name x (y ∷ ys) ≡ true
    → has_name y (x ∷ xs) ≡ true
    → x ≡ y
heads_agree x y xs ys up up' h h' = elim (Bool-cases (text_eq y x)) [
  | inl same ↦ sym (eq_of_text_eq y x same)
  | inr other ↦
      let below = head-has_name x y ys up' h other in
      elim (Bool-cases (text_eq x y)) [
        | inl same ↦ eq_of_text_eq x y same
        | inr other' ↦
            let above = head-has_name y x xs up h' other' in
            ground (arith, text_lt_trans x y x above below, text_lt_irrefl x)
      ]
]

not_among : (x : Text) (xs : List Text) → AllAfter x xs → has_name x xs ≡ false
not_among x xs up = elim (Bool-cases (has_name x xs)) [
  | inr out ↦ out
  | inl among ↦ ground (arith, has_name-AllAfter x x xs up among, text_lt_irrefl x)
]

tails_agree :
    (x : Text) (xs ys : List Text)
    → AllAfter x xs
    → AllAfter x ys
    → ((u : Text) → has_name u (x ∷ xs) ≡ has_name u (x ∷ ys))
    → (u : Text) → has_name u xs ≡ has_name u ys
unfolding has_name
tails_agree x xs ys up up' same u = elim (Bool-cases (text_eq x u)) [
  | inr other ↦ ground (arith, same u, other)
  | inl this ↦
      subst (λ v. has_name v xs ≡ has_name v ys) (eq_of_text_eq x u this)
        (not_among x xs up ∙ sym (not_among x ys up'))
]

-- Two ascending lists with the same members are one list.
pub Ascends-unique :
    (xs ys : List Text)
    → Ascends xs
    → Ascends ys
    → ((u : Text) → has_name u xs ≡ has_name u ys)
    → xs ≡ ys
unfolding has_name
Ascends-unique [] [] up up' same = refl
Ascends-unique [] (y ∷ ys) up up' same = ground (arith, same y, text_eq_refl y)
Ascends-unique (x ∷ xs) [] up up' same = ground (arith, same x, text_eq_refl x)
Ascends-unique (x ∷ xs) (y ∷ ys) up up' same =
    let here : has_name x (y ∷ ys) ≡ true = ground (arith, same x, text_eq_refl x) in
    let there : has_name y (x ∷ xs) ≡ true = ground (arith, same y, text_eq_refl y) in
    let e = heads_agree x y xs ys up.0 up'.0 here there in
    let up'' : AllAfter x ys = subst (λ v. AllAfter v ys) (sym e) up'.0 in
    let same' : (u : Text) → has_name u (x ∷ xs) ≡ has_name u (x ∷ ys) =
      λ u. same u ∙ ap (λ v. has_name u (v ∷ ys)) (sym e) in
    ap (λ v. v ∷ xs) e
    ∙ ap (λ zs. y ∷ zs) (Ascends-unique xs ys up.1 up'.1 (tails_agree x xs ys up.0 up'' same'))

-- The trimmed names that are not empty.
abbrev pub names_in : Text → List Text → Bool
names_in u [] = false
names_in u (v ∷ vs) =
    if text_eq (trim_space v) [] then names_in u vs else text_eq (trim_space v) u || names_in u vs

pub canonical_set-Ascends : (vs : List Text) → Ascends (canonical_set vs)
unfolding canonical_set
canonical_set-Ascends [] = tt
canonical_set-Ascends (v ∷ vs) = elim (Bool-cases (text_eq (trim_space v) [])) [
  | inl empty ↦ rw empty (canonical_set-Ascends vs)
  | inr named ↦
      rw named (add_name-Ascends (trim_space v) (canonical_set vs) (canonical_set-Ascends vs))
]

pub has_name-canonical_set :
    (u : Text) (vs : List Text) → has_name u (canonical_set vs) ≡ names_in u vs
unfolding canonical_set has_name
has_name-canonical_set u [] = refl
has_name-canonical_set u (v ∷ vs) = elim (Bool-cases (text_eq (trim_space v) [])) [
  | inl empty ↦ rw (canonical_set, empty) (has_name-canonical_set u vs)
  | inr named ↦
      rw
        (
          canonical_set,
          named,
          has_name-add_name u (trim_space v) (canonical_set vs),
          has_name-canonical_set u vs,
        )
        refl
]

-- The stored set ascends, so it has no name twice, and two lists of names that have the same trimmed,
-- non-empty members are stored as the same list, whatever their order and repetitions.
pub canonical_set_lem :
    (vs ws : List Text)
    → ((u : Text) → names_in u vs ≡ names_in u ws)
    → Ascends (canonical_set vs) × (canonical_set vs ≡ canonical_set ws)
canonical_set_lem vs ws same = (
  canonical_set-Ascends vs,
  Ascends-unique (canonical_set vs) (canonical_set ws) (canonical_set-Ascends vs)
      (canonical_set-Ascends ws)
      λ u. has_name-canonical_set u vs ∙ same u ∙ sym (has_name-canonical_set u ws),
)
