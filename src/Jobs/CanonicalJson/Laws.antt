-- ===== src/Jobs/CanonicalJson/Laws.antt =====
-- The form does not depend on the order in which a document's objects list their members.
use task_forge.Base.{
  Text, ◌≡◌, refl, sym, ◌∙◌, arith, ap, true, false, List, [], ◌∷◌, ◌++◌, some, Bool-cases, inl,
  inr, text_eq,
}
use task_forge.Canonical.{text_lt}
use task_forge.Canonical.Laws.{text_lt_irrefl, text_lt_trans, text_lt_total}
use task_forge.Jobs.CanonicalJson.{
  Value, array, object, Items, no_items, item, Members, no_members, member, JsonCodec, add_member,
  write, write_items, written, write_members, canonical_json, whole_document,
}

-- Two documents that differ in the order of members only, at any depth.
mutual
  pub data Alike : Value → Value → Type 0 where
    same_value : {v : Value} → Alike v v
    same_array : {vs ws : Items} → AlikeItems vs ws → Alike (array vs) (array ws)
    same_object : {ms ns : Members} → AlikeMembers ms ns → Alike (object ms) (object ns)

  pub data AlikeItems : Items → Items → Type 0 where
    same_none : AlikeItems no_items no_items
    same_item :
        {v w : Value} {vs ws : Items}
        → Alike v w
        → AlikeItems vs ws
        → AlikeItems (item v vs) (item w ws)

  pub data AlikeMembers : Members → Members → Type 0 where
    same_end : AlikeMembers no_members no_members
    same_member :
        {k : Text} {v w : Value} {ms ns : Members}
        → Alike v w
        → AlikeMembers ms ns
        → AlikeMembers (member k v ms) (member k w ns)
    exchanged :
        {k l : Text} {v w : Value} {ms : Members}
        → text_eq k l ≡ false
        → AlikeMembers (member k v (member l w ms)) (member l w (member k v ms))
    then_also : {ms ns os : Members} → AlikeMembers ms ns → AlikeMembers ns os → AlikeMembers ms os

text_lt_asym : (s t : Text) → text_lt s t ≡ true → text_lt t s ≡ false
text_lt_asym s t h = elim (Bool-cases (text_lt t s)) [
  | inr back ↦ back
  | inl back ↦ ground (arith, text_lt_trans s t s h back, text_lt_irrefl s)
]

put_before :
    (m o : Text × Text) (os : List (Text × Text))
    → text_lt m.0 o.0 ≡ true
    → add_member m (o ∷ os) ≡ m ∷ o ∷ os
unfolding add_member
put_before m o os h = rw h refl

put_after :
    (m o : Text × Text) (os : List (Text × Text))
    → text_lt m.0 o.0 ≡ false
    → add_member m (o ∷ os) ≡ o ∷ add_member m os
unfolding add_member
put_after m o os h = rw h refl

-- Members of different names are sorted alike in either order.
exchange :
    (m n : Text × Text) (os : List (Text × Text))
    → text_lt m.0 n.0 ≡ true
    → add_member m (add_member n os) ≡ add_member n (add_member m os)
unfolding add_member
exchange m n [] below =
    put_before m n [] below ∙ sym (put_after n m [] (text_lt_asym m.0 n.0 below))
exchange m n (o ∷ os) below =
    let back = text_lt_asym m.0 n.0 below in
    elim (Bool-cases (text_lt n.0 o.0)) [
      | inl hit ↦
          let first = text_lt_trans m.0 n.0 o.0 below hit in
          ap (add_member m) (put_before n o os hit)
          ∙ put_before m n (o ∷ os) below
          ∙ ap (λ ps. m ∷ ps) (sym (put_before n o os hit))
          ∙ sym (put_after n m (o ∷ os) back)
          ∙ ap (add_member n) (sym (put_before m o os first))
      | inr miss ↦ elim (Bool-cases (text_lt m.0 o.0)) [
        | inl hit ↦
            ap (add_member m) (put_after n o os miss)
            ∙ put_before m o (add_member n os) hit
            ∙ ap (λ ps. m ∷ ps) (sym (put_after n o os miss))
            ∙ sym (put_after n m (o ∷ os) back)
            ∙ ap (add_member n) (sym (put_before m o os hit))
        | inr miss' ↦
            ap (add_member m) (put_after n o os miss)
            ∙ put_after m o (add_member n os) miss'
            ∙ ap (λ ps. o ∷ ps) (exchange m n os below)
            ∙ sym (put_after n o (add_member m os) miss)
            ∙ ap (add_member n) (sym (put_after m o os miss'))
      ]
    ]

exchange_distinct :
    (m n : Text × Text) (os : List (Text × Text))
    → text_eq m.0 n.0 ≡ false
    → add_member m (add_member n os) ≡ add_member n (add_member m os)
exchange_distinct m n os other = elim (Bool-cases (text_lt m.0 n.0)) [
  | inl below ↦ exchange m n os below
  | inr above ↦ sym (exchange n m os (text_lt_total m.0 n.0 above other))
]

module _ (quote : Text → Text) where
  mutual
    unfolding write

    write-Alike : {v w : Value} → Alike v w → write quote v ≡ write quote w
    write-Alike same_value = refl
    write-Alike (same_array same_none) = refl
    write-Alike (same_array (same_item {v} {w} {vs} {ws} a bs)) =
        rw (write-Alike a, write_items-AlikeItems bs) refl
    write-Alike (same_object ms) =
        ap (λ (ps : List (Text × Text)). 123 ∷ (write_members quote ps ++ (125 ∷ [])))
          (written-AlikeMembers ms)

    write_items-AlikeItems :
        {vs ws : Items} → AlikeItems vs ws → write_items quote vs ≡ write_items quote ws
    write_items-AlikeItems same_none = refl
    write_items-AlikeItems (same_item a bs) = rw (write-Alike a, write_items-AlikeItems bs) refl

    written-AlikeMembers :
        {ms ns : Members} → AlikeMembers ms ns → written quote ms ≡ written quote ns
    written-AlikeMembers same_end = refl
    written-AlikeMembers (same_member a bs) = rw (write-Alike a, written-AlikeMembers bs) refl
    written-AlikeMembers (exchanged {k} {l} {v} {w} {ms} other) =
        exchange_distinct (k, write quote v) (l, write quote w) (written quote ms) other
    written-AlikeMembers (then_also a b) = written-AlikeMembers a ∙ written-AlikeMembers b

-- Two documents whose decoded values differ in the order of members only, at any depth, have one
-- canonical form.
pub canonical_json-Alike :
    (c : JsonCodec) (raw raw' : Text) (v w : Value)
    → c.decode raw ≡ some (v, false)
    → c.decode raw' ≡ some (w, false)
    → Alike v w
    → canonical_json c raw ≡ canonical_json c raw'
unfolding canonical_json
canonical_json-Alike c raw raw' v w one other alike =
    ap (whole_document c) one
    ∙ ap some (write-Alike c.quote alike)
    ∙ sym (ap (whole_document c) other)
