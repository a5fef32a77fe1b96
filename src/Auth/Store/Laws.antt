-- ===== src/Auth/Store/Laws.antt =====
-- Who is let in: a live key's own credential.
use task_forge.Base.{
  Text, ℕ, ◌≤◌, ◌≡◌, ◌⊎◌, refl, sym, arith, ap, subst, Bool, true, none, some, List, [], ◌∷◌,
  text_eq_refl, eq_of_text_eq, length, is_some, Result, ok, err, guard_ok, or_fail_ok, bind_ok,
  refuse_ok, if_ok, inl, inr, Result-cases, prefix_exhausted, trim_space,
}
use task_forge.Table.{Table, find, put, find_where, any, count}
use task_forge.Table.Laws.{IsKeyed, find_where-eq-some}
use task_forge.Auth.Key.{
  Codec, Material, generate_material, raw, parse_key, verify_secret, verified,
}
use task_forge.Auth.Key.Laws.{parse_key-raw, raw-parse_key, eq_of_verified}
use task_forge.Auth.Store.{
  KeyRow, view, revoked, valid_key_request, has_prefix, KeyDraw, Created, minted, Principal,
  create_attempt, create, authenticate,
}

find_where-put :
    (p : KeyRow → Bool) (i : ℕ) (a : KeyRow) (t : Table KeyRow)
    → count p t ≡ 0
    → find i t ≡ none
    → p a ≡ true
    → find_where p (put i a t) ≡ some (i, a)
unfolding find_where put count find
find_where-put p i a [] empty free hit = rw hit refl
find_where-put p i a ((k, b) ∷ t) empty free hit = ground (arith, find_where-put p i a t)

-- Keys are told apart by id and by prefix.
pub record IsUnique (keys : Table KeyRow) : Type 0 where
  pub keyed : IsKeyed keys
  pub one_each : (prefix : Text) → count (has_prefix prefix) keys ≤ 1

module _ (c : Codec) where
  -- A key that a call minted: what it drew, and the row that it wrote.
  pub record IsMinted (keys : Table KeyRow) (d : KeyDraw) (scope name : Text)
      (v : Table KeyRow × Created) : Type 0 where
    pub m : Material
    pub drawn : generate_material c d.lookup d.secret ≡ ok m
    pub new_prefix : count (has_prefix m.prefix) keys ≡ 0
    pub new_id : find d.id keys ≡ none
    pub written : v ≡ (
      put d.id (minted scope name d.now m) keys,
      record { key = view d.id (minted scope name d.now m); raw = raw m },
    )

  create_attempt-cases :
      (keys : Table KeyRow) (scope name : Text) (d : KeyDraw)
      (again : Result (Table KeyRow × Created)) (v : Table KeyRow × Created)
      → create_attempt c keys scope name d again ≡ ok v
      → (again ≡ ok v) ⊎ IsMinted keys d scope name v
  unfolding create_attempt
  create_attempt-cases keys scope name d again v h =
      bind_ok (generate_material c d.lookup d.secret) _ h λ m drawn h1.
        if_ok (any (has_prefix m.prefix) keys) _ _ h1 (λ _ e. inl e)
          λ fresh h2.
            if_ok (is_some (find d.id keys)) _ _ h2 (λ _ e. cc)
              λ free last. inr (record {
                m = m;
                drawn = drawn;
                new_prefix = ground (arith, fresh);
                new_id = ground (arith, free);
                written = ground (arith, last);
              })

  pub create-cases :
      (keys : Table KeyRow) (scope name : Text) (first second : KeyDraw)
      (v : Table KeyRow × Created)
      → create c keys scope name first second ≡ ok v
      → (d : KeyDraw) × ((d ≡ first) ⊎ (d ≡ second))
        × IsMinted keys d (trim_space scope) (trim_space name) v
  unfolding create
  create-cases keys scope name first second v h =
      let s = trim_space scope in
      let n = trim_space name in
      guard_ok (valid_key_request s n) _ _ h λ _ h1.
        elim (create_attempt-cases keys s n first
          (create_attempt c keys s n second (err prefix_exhausted)) v h1) [
            | inr minted ↦ (first, inl refl, minted)
            | inl h2 ↦ elim (create_attempt-cases keys s n second (err prefix_exhausted) v h2) [
              | inr minted ↦ (second, inr refl, minted)
              | inl h3 ↦ cc
            ]
          ]

  -- A credential is accepted only if it is that of a row which is not revoked: its lookup segment is
  -- the row's, its secret hashes to the row's digest, and the caller acts in the row's scope.
  pub authenticate-ok :
      (keys : Table KeyRow) (credential : Text) (p : Principal)
      → IsUnique keys
      → authenticate c keys credential ≡ ok p
      → (k : KeyRow) × (secret : Text) × (find p.key_id keys ≡ some k)
        × (p.scope ≡ k.scope)
        × (k.revoked_at ≡ none)
        × (credential
            ≡ raw (record { prefix = k.prefix; secret = secret; secret_hash = k.secret_hash }))
        × (k.secret_hash ≡ c.digest secret)
  unfolding authenticate verify_secret
  authenticate-ok keys credential p unique h = elim (Result-cases (parse_key c credential)) [
    | inl (e, bad) ↦ ground (arith, rw bad at h)
    | inr (q, good) ↦
        or_fail_ok (find_where (has_prefix q.prefix) keys) _ _ (rw good at h) λ row here h1.
          guard_ok (verified row.1.secret_hash (c.digest q.secret)) _ _ h1 λ proven h2.
            refuse_ok (revoked row.1) _ _ h2 λ alive last.
              let (found, same) =
                find_where-eq-some (has_prefix q.prefix) keys row.0 row.1 here unique.keyed in
              let prefix : row.1.prefix ≡ q.prefix = eq_of_text_eq row.1.prefix q.prefix same in
              let shape = (raw-parse_key c credential q row.1.secret_hash good).0 in
              let who : p ≡ record { key_id = row.0; scope = row.1.scope } = ground (arith, last) in
              rw who (
                row.1,
                q.secret,
                found,
                refl,
                ground (arith, alive),
                rw prefix (sym shape),
                eq_of_verified row.1.secret_hash (c.digest q.secret) proven,
              )
  ]

  minted-authenticate :
      (keys : Table KeyRow) (scope name : Text) (l s : List ℕ) (d : KeyDraw)
      (v : Table KeyRow × Created)
      → length l ≡ 16
      → length s ≡ 32
      → d.lookup ≡ some l
      → d.secret ≡ some s
      → IsMinted keys d scope name v
      → authenticate c v.0 v.1.raw ≡ ok (record { key_id = v.1.key.id; scope = scope })
  unfolding authenticate verify_secret
  minted-authenticate keys scope name l s d v few many el es made =
      let m = made.m in
      let row = minted scope name d.now m in
      let (parses, verifies) = parse_key-raw c l s m few many (rw (el, es) at made.drawn) in
      let found : find_where (has_prefix m.prefix) (put d.id row keys) ≡ some (d.id, row) =
        find_where-put (has_prefix m.prefix) d.id row keys made.new_prefix made.new_id
          (text_eq_refl m.prefix) in
      let accepted : authenticate c (put d.id row keys) (raw m)
          ≡ ok (record { key_id = d.id; scope = scope }) =
        rw (authenticate, parses, found, verifies) refl in
      subst
        (λ (x : Table KeyRow × Created).
          authenticate c x.0 x.1.raw ≡ ok (record { key_id = x.1.key.id; scope = scope }))
        (sym made.written) accepted

  -- A new credential is accepted at once, as the key and in the scope that were created, where both
  -- attempts read all the bytes that they asked for.
  pub create-authenticate :
      (keys : Table KeyRow) (scope name : Text) (l s l' s' : List ℕ) (id now id' now' : ℕ)
      (v : Table KeyRow × Created)
      → length l ≡ 16
      → length s ≡ 32
      → length l' ≡ 16
      → length s' ≡ 32
      → create c keys scope name
          (record { lookup = some l; secret = some s; id = id; now = now })
          (record { lookup = some l'; secret = some s'; id = id'; now = now' })
        ≡ ok v
      → authenticate c v.0 v.1.raw ≡ ok (record { key_id = v.1.key.id; scope = trim_space scope })
  unfolding authenticate verify_secret
  create-authenticate keys scope name l s l' s' id now id' now' v few many few' many' h =
      let first : KeyDraw = record { lookup = some l; secret = some s; id = id; now = now } in
      let second : KeyDraw = record { lookup = some l'; secret = some s'; id = id'; now = now' } in
      let (d, which, made) = create-cases keys scope name first second v h in
      elim which [
        | inl e ↦
            minted-authenticate keys (trim_space scope) (trim_space name) l s d v few many
              (ap (λ (x : KeyDraw). x.lookup) e) (ap (λ (x : KeyDraw). x.secret) e) made
        | inr e ↦
            minted-authenticate keys (trim_space scope) (trim_space name) l' s' d v few' many'
              (ap (λ (x : KeyDraw). x.lookup) e) (ap (λ (x : KeyDraw). x.secret) e) made
      ]
