-- ===== src/Auth/Store/Revocation.antt =====
-- What a revocation does, and that it holds: after it the key lets nobody in.
use task_forge.Base.{
  Text, ℕ, ◌≡◌, ◌≢◌, ◌⊎◌, refl, sym, arith, ap, subst, true, false, none, some, ◌==◌, eq_of_text_eq,
  ok, inl, inr, Bool-cases, Option-cases, trim_space, ==_iff,
}
use task_forge.Table.{Table, find, put, update}
use task_forge.Table.Laws.{find-put, find-put_self, count-put, put-IsKeyed}
use task_forge.Auth.Key.{Codec}
use task_forge.Auth.Store.{
  KeyRow, view, revoked, has_prefix, KeyDraw, Created, minted, Principal, RevokeResult, create,
  authenticate, live, revoke_row, get, revoke,
}
use task_forge.Auth.Store.Laws.{IsUnique, IsMinted, create-cases, authenticate-ok}

find-put_other :
    (i j : ℕ) (a b : KeyRow) (t : Table KeyRow)
    → find i t ≡ none
    → find j t ≡ some b
    → find j (put i a t) ≡ some b
find-put_other i j a b t free here = elim (Bool-cases (i == j)) [
  | inl hit ↦
      let gone : find j t ≡ none = rw ((==_iff i j).0 hit) at free in ground (arith, gone, here)
  | inr miss ↦ ground (arith, find-put i j a t, miss, here)
]

revoke-cases :
    (keys : Table KeyRow) (id now : ℕ) (v : Table KeyRow × RevokeResult)
    → revoke keys id now ≡ ok v
    → (k : KeyRow) × (find id keys ≡ some k)
      × (((revoked k ≡ false)
            × (v.0 ≡ put id (revoke_row now k) keys)
            × (v.1 ≡ record { key = view id (revoke_row now k); already_revoked = false }))
          ⊎ ((revoked k ≡ true)
              × (v.0 ≡ keys)
              × (v.1 ≡ record { key = view id k; already_revoked = true })))
unfolding revoke get update
revoke-cases keys id now v h = elim (Option-cases (find id keys)) [
  | inl gone ↦ ground (arith, gone, rw gone at h)
  | inr (k, here) ↦ elim (Bool-cases (revoked k)) [
    | inl over ↦ (k, here, inr (over, ground (arith, here, over, h), ground (arith, here, over, h)))
    | inr alive ↦
        let self = find-put_self id (revoke_row now k) keys in
        (
          k,
          here,
          inl (alive, ground (arith, here, alive, h, self), ground (arith, here, alive, h, self)),
        )
  ]
]

module _ (c : Codec) where
  -- The writes of the table.
  pub data KeyStep (keys : Table KeyRow) : Table KeyRow → Type 0 where
    by_create :
        (scope name : Text) (first second : KeyDraw) (v : Table KeyRow × Created)
        → create c keys scope name first second ≡ ok v
        → KeyStep keys v.0
    by_revoke :
        (id now : ℕ) (v : Table KeyRow × RevokeResult)
        → revoke keys id now ≡ ok v
        → KeyStep keys v.0

  pub data KeyRun (keys : Table KeyRow) : Table KeyRow → Type 0 where
    stop : KeyRun keys keys
    step : {mid keys' : Table KeyRow} → KeyRun keys mid → KeyStep mid keys' → KeyRun keys keys'

  minted-IsUnique :
      (keys : Table KeyRow) (scope name : Text) (d : KeyDraw) (v : Table KeyRow × Created)
      → IsUnique keys
      → IsMinted c keys d scope name v
      → IsUnique v.0
  minted-IsUnique keys scope name d v unique made =
      let row = minted scope name d.now made.m in
      subst (λ (x : Table KeyRow × Created). IsUnique x.0) (sym made.written)
        (record {
          keyed = put-IsKeyed d.id row keys unique.keyed;
          one_each = λ prefix. ground (
            arith,
            count-put (has_prefix prefix) d.id row keys,
            made.new_id,
            made.new_prefix,
            eq_of_text_eq made.m.prefix prefix,
            unique.one_each prefix,
          );
        })

  revoke-IsUnique :
      (keys : Table KeyRow) (id now : ℕ) (v : Table KeyRow × RevokeResult)
      → IsUnique keys
      → revoke keys id now ≡ ok v
      → IsUnique v.0
  revoke-IsUnique keys id now v unique h =
      let (k, here, which) = revoke-cases keys id now v h in
      elim which [
        | inr (over, same, _) ↦ subst IsUnique (sym same) unique
        | inl (alive, same, _) ↦ subst IsUnique (sym same) (record {
          keyed = put-IsKeyed id (revoke_row now k) keys unique.keyed;
          one_each = λ prefix. ground (
            arith,
            count-put (has_prefix prefix) id (revoke_row now k) keys,
            here,
            unique.one_each prefix,
          );
        })
      ]

  -- The ids and the lookup segments of the keys stay distinct through every sequence of creations and
  -- revocations.
  pub KeyRun-IsUnique :
      (keys keys' : Table KeyRow) → IsUnique keys → KeyRun keys keys' → IsUnique keys'
  KeyRun-IsUnique keys keys' unique stop = unique
  KeyRun-IsUnique keys keys' unique (step {mid} r (by_create scope name first second v h)) =
      let (d, _, made) = create-cases c mid scope name first second v h in
      minted-IsUnique mid (trim_space scope) (trim_space name) d v
        (KeyRun-IsUnique keys mid unique r) made
  KeyRun-IsUnique keys keys' unique (step {mid} r (by_revoke id now v h)) =
      revoke-IsUnique mid id now v (KeyRun-IsUnique keys mid unique r) h

  -- A key that is there and revoked.
  abbrev pub Withdrawn : ℕ → Table KeyRow → Type 0
  Withdrawn id keys = (k : KeyRow) × (find id keys ≡ some k) × (revoked k ≡ true)

  KeyStep-Withdrawn :
      (keys keys' : Table KeyRow) (id : ℕ)
      → Withdrawn id keys
      → KeyStep keys keys'
      → Withdrawn id keys'
  KeyStep-Withdrawn keys keys' id (k, here, over) (by_create scope name first second v h) =
      let (d, _, made) = create-cases c keys scope name first second v h in
      let row = minted (trim_space scope) (trim_space name) d.now made.m in
      let written : keys' ≡ put d.id row keys =
        ap (λ (x : Table KeyRow × Created). x.0) made.written in
      (k, rw written (find-put_other d.id id row k keys made.new_id here), over)
  KeyStep-Withdrawn keys keys' id (k, here, over) (by_revoke i now v h) =
      let (x, found, which) = revoke-cases keys i now v h in
      elim which [
        | inr (_, same, _) ↦ (k, rw same here, over)
        | inl (alive, same, _) ↦ elim (Bool-cases (i == id)) [
          | inl hit ↦
              let both : find id keys ≡ some x = rw ((==_iff i id).0 hit) at found in
              ground (arith, both, here, over, alive)
          | inr miss ↦
              let law = find-put i id (revoke_row now x) keys in
              (k, rw same (rw (miss, here) at law), over)
        ]
      ]

  KeyRun-Withdrawn :
      (keys keys' : Table KeyRow) (id : ℕ)
      → Withdrawn id keys
      → KeyRun keys keys'
      → Withdrawn id keys'
  KeyRun-Withdrawn keys keys' id w stop = w
  KeyRun-Withdrawn keys keys' id w (step {mid} r s) =
      KeyStep-Withdrawn mid keys' id (KeyRun-Withdrawn keys mid id w r) s

  -- After a revocation, and any creations and revocations that follow it, no credential is accepted as
  -- the revoked key.
  pub revoked_is_refused :
      (keys keys' : Table KeyRow) (id now : ℕ) (v : Table KeyRow × RevokeResult) (credential : Text)
      (p : Principal)
      → IsUnique keys
      → revoke keys id now ≡ ok v
      → KeyRun v.0 keys'
      → authenticate c keys' credential ≡ ok p
      → p.key_id ≢ id
  revoked_is_refused keys keys' id now v credential p unique h r accepted same =
      let (k, here, which) = revoke-cases keys id now v h in
      let withdrawn : Withdrawn id v.0 = elim which [
        | inr (over, e, _) ↦ (k, rw e here, over)
        | inl (alive, e, _) ↦
            (revoke_row now k, rw e (find-put_self id (revoke_row now k) keys), refl)
      ] in
      let (k', here', over') = KeyRun-Withdrawn v.0 keys' id withdrawn r in
      let unique' = KeyRun-IsUnique v.0 keys' (revoke-IsUnique keys id now v unique h) r in
      let (row, _, found, _, alive, _, _) = authenticate-ok c keys' credential p unique' accepted in
      let both : find id keys' ≡ some row = rw same at found in
      ground (arith, both, here', over', alive)

revoke_again :
    (keys : Table KeyRow) (id later : ℕ) (k : KeyRow)
    → find id keys ≡ some k
    → revoked k ≡ true
    → revoke keys id later ≡ ok (keys, record { key = view id k; already_revoked = true })
unfolding revoke get update
revoke_again keys id later k here over =
    let missed : update id live (revoke_row later) keys ≡ none = ground (arith, here, over) in
    ground (arith, missed, here)

-- Revoking a key again changes nothing, and reports the row with the instant of the first time.
pub revoke-revoke :
    (keys : Table KeyRow) (id now later : ℕ) (v : Table KeyRow × RevokeResult)
    → revoke keys id now ≡ ok v
    → revoke v.0 id later ≡ ok (v.0, record { key = v.1.key; already_revoked = true })
revoke-revoke keys id now later v h =
    let (k, here, which) = revoke-cases keys id now v h in
    elim which [
      | inr (over, e, f) ↦ rw (e, f) (revoke_again keys id later k here over)
      | inl (alive, e, f) ↦
          let self = find-put_self id (revoke_row now k) keys in
          rw (e, f)
            (revoke_again (put id (revoke_row now k) keys) id later (revoke_row now k) self refl)
    ]
