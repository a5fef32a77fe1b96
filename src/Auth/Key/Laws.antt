-- ===== src/Auth/Key/Laws.antt =====
-- A generated credential is accepted as presented, and what ParseKey accepts has that shape.
use task_forge.Base.{
  Text, ℕ, ◌+◌, ◌≡◌, refl, sym, ◌∙◌, arith, true, false, some, List, [], ◌∷◌, ◌++◌, ltb, ◌==◌,
  text_eq_refl, eq_of_text_eq, length, ok, or_fail_ok, guard_ok, refuse_ok, is_some, ap, Bool-cases,
  Option-cases, inl, inr, ◌&&◌,
}
use task_forge.Auth.Key.{
  Codec, Material, Presented, raw, cut_prefix, cut, verified, generate_material, parse_key,
  verify_secret, any_is, key_prefix, separator, key_len, lookup_len, secret_len, max_credential_len,
}

length-++ : (s t : Text) → length (s ++ t) ≡ length s + length t
length-++ [] t = omega arith
length-++ (c ∷ s) t = omega (arith, length-++ s t)

pub cut-++ : (sep : ℕ) (s t : Text) → any_is sep s ≡ false → cut sep (s ++ (sep ∷ t)) ≡ some (s, t)
unfolding cut any_is
cut-++ sep [] t clean = ground arith
cut-++ sep (c ∷ s) t clean = ground (arith, cut-++ sep s t)

cut-eq-some :
    (sep : ℕ) (s a b : Text)
    → cut sep s ≡ some (a, b)
    → (s ≡ a ++ (sep ∷ b)) × (any_is sep a ≡ false)
unfolding cut any_is
cut-eq-some sep [] a b h = cc
cut-eq-some sep (c ∷ s) a b h = elim (Bool-cases (c == sep)) [
  | inl hit ↦ ground (arith, hit, h)
  | inr miss ↦ elim (Option-cases (cut sep s)) [
    | inl gone ↦ ground (arith, miss, gone, h)
    | inr (v, here) ↦
        let (shape, clean) = cut-eq-some sep s v.0 v.1 here in
        ground (arith, miss, here, h, shape, clean)
  ]
]

cut_prefix-eq-some : (p s rest : Text) → cut_prefix p s ≡ some rest → s ≡ p ++ rest
unfolding cut_prefix
cut_prefix-eq-some [] s rest h = ground arith
cut_prefix-eq-some (b ∷ p) [] rest h = cc
cut_prefix-eq-some (b ∷ p) (c ∷ s) rest h = ground (arith, h, cut_prefix-eq-some p s rest)

cut_prefix-++ : (p s : Text) → cut_prefix p (p ++ s) ≡ some s
unfolding cut_prefix
cut_prefix-++ [] s = refl
cut_prefix-++ (b ∷ p) s = ground (arith, cut_prefix-++ p s)

verified_refl : (s : Text) → verified s s ≡ true
verified_refl s = ground (arith, text_eq_refl s)

pub eq_of_verified : (s t : Text) → verified s t ≡ true → s ≡ t
eq_of_verified s t h = ground (arith, h, eq_of_text_eq s t)

module _ (c : Codec) where
  open c use {encode, decode, digest, in_alphabet, decodes, length-encode}

  -- What a text of the right shape parses to.
  parse_key_shaped :
      (l t hash : Text)
      → any_is separator l ≡ false
      → length l ≡ lookup_len
      → length t ≡ secret_len
      → is_some (decode l) ≡ true
      → is_some (decode t) ≡ true
      → parse_key c (raw (record { prefix = l; secret = t; secret_hash = hash }))
        ≡ ok (record { prefix = l; secret = t })
  unfolding parse_key raw
  parse_key_shaped l t hash clean few many here there =
      let whole : Text = key_prefix ++ (l ++ (separator ∷ t)) in
      let size : length whole ≡ key_len = omega (arith, length-++ l (separator ∷ t), few, many) in
      let short : ltb max_credential_len (length whole) ≡ false = ground (arith, size) in
      let exact : (length whole == key_len) ≡ true = ground (arith, size) in
      let fits : (length l == lookup_len && length t == secret_len) ≡ true =
        ground (arith, few, many) in
      rw
        (
          parse_key,
          short,
          exact,
          cut_prefix-++ key_prefix (l ++ (separator ∷ t)),
          cut-++ separator l t clean,
          fits,
          here,
          there,
        )
        refl

  -- A credential generated from 16 and 32 random bytes has the fixed length, ParseKey takes it apart
  -- into the segments it was made of, and its secret verifies against the stored digest.
  pub parse_key-raw :
      (lookup secret : List ℕ) (m : Material)
      → length lookup ≡ 16
      → length secret ≡ 32
      → generate_material c (some lookup) (some secret) ≡ ok m
      → (parse_key c (raw m) ≡ ok (record { prefix = m.prefix; secret = m.secret }))
        × (verify_secret c m.secret_hash m.secret ≡ true)
  unfolding generate_material parse_key verify_secret raw
  parse_key-raw lookup secret m few many h =
      let same : m ≡ record {
        prefix = encode lookup;
        secret = encode secret;
        secret_hash = digest (encode secret);
      } =
        ground (arith, h) in
      let l : length (encode lookup) ≡ lookup_len = ground (arith, length-encode lookup, few) in
      let t : length (encode secret) ≡ secret_len = ground (arith, length-encode secret, many) in
      let d : is_some (decode (encode lookup)) ≡ true = rw (decodes lookup) refl in
      let e : is_some (decode (encode secret)) ≡ true = rw (decodes secret) refl in
      rw same (
        parse_key_shaped (encode lookup) (encode secret) (digest (encode secret))
            (in_alphabet lookup) l t d e,
        verified_refl (digest (encode secret)),
      )

  -- ParseKey accepts a text only if it is the credential that its two segments make.
  pub raw-parse_key :
      (s : Text) (p : Presented) (hash : Text)
      → parse_key c s ≡ ok p
      → (raw (record { prefix = p.prefix; secret = p.secret; secret_hash = hash }) ≡ s)
        × (any_is separator p.prefix ≡ false)
        × (length p.prefix ≡ lookup_len)
        × (length p.secret ≡ secret_len)
        × (is_some (decode p.prefix) ≡ true)
        × (is_some (decode p.secret) ≡ true)
  unfolding parse_key raw
  raw-parse_key s p hash h = refuse_ok (ltb max_credential_len (length s)) _ _ h λ _ h1.
      guard_ok (length s == key_len) _ _ h1 λ _ h2.
        or_fail_ok (cut_prefix key_prefix s) _ _ h2 λ rest marked h3.
          or_fail_ok (cut separator rest) _ _ h3 λ parts split h4.
            guard_ok (length parts.0 == lookup_len && length parts.1 == secret_len) _ _ h4
              λ fits h5. guard_ok (is_some (decode parts.0)) _ _ h5 λ here h6.
                guard_ok (is_some (decode parts.1)) _ _ h6 λ there last.
                  let (shape, clean) = cut-eq-some separator rest parts.0 parts.1 split in
                  let whole = cut_prefix-eq-some key_prefix s rest marked in
                  let first : p.prefix ≡ parts.0 = ground (arith, last) in
                  let second : p.secret ≡ parts.1 = ground (arith, last) in
                  rw (first, second)
                    (
                      sym (whole ∙ ap (λ x. key_prefix ++ x) shape),
                      clean,
                      ground (arith, fits),
                      ground (arith, fits),
                      here,
                      there,
                    )
