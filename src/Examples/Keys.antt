-- ===== src/Examples/Keys.antt =====
-- Credentials of a small codec: each byte is one character above those of the alphabet's marks, and
-- fillers make up the length.
use task_forge.Base.{
  Text, ℕ, zero, suc, ◌+◌, ◌-◌, ◌*◌, ◌/◌, ◌≡◌, ◌≢◌, refl, arith, true, false, List, [], ◌∷◌, ◌++◌,
  none, some, ltb, length, text, text_eq, ok, if◌then◌else◌, trim_space,
}
use task_forge.Table.{Table, find, put, find_where, count, update}
use task_forge.Auth.Key.{
  Codec, generate_material, raw, parse_key, verify_secret, any_is, separator, cut, cut_prefix,
}
use task_forge.Auth.Store.{
  KeyRow, KeyDraw, Created, view, Principal, RevokeResult, create, create_attempt, authenticate,
  revoke, get, is_printable_within, valid_key_request,
}
use task_forge.Auth.Store.Laws.{IsUnique, create-authenticate, authenticate-ok}
use task_forge.Auth.Store.Revocation.{
  by_create, by_revoke, stop, step, revoked_is_refused, KeyRun-IsUnique,
}
use task_forge.Examples.{value}

abbrev shifted : List ℕ → Text
shifted [] = []
shifted (b ∷ bs) = (b + 47) ∷ shifted bs

abbrev fillers : ℕ → Text
fillers zero = []
fillers (suc n) = 45 ∷ fillers n

abbrev filled : List ℕ → Text
filled bs = fillers ((length bs * 8 + 5) / 6 - length bs)

abbrev unshifted : Text → List ℕ
unshifted [] = []
unshifted (c ∷ s) = if ltb c 47 then unshifted s else (c - 47) ∷ unshifted s

length-shifted : (bs : List ℕ) (s : Text) → length (shifted bs ++ s) ≡ length bs + length s
length-shifted [] s = omega arith
length-shifted (b ∷ bs) s = omega (arith, length-shifted bs s)

length-fillers : (n : ℕ) → length (fillers n) ≡ n
length-fillers zero = refl
length-fillers (suc n) = omega (arith, length-fillers n)

fillers_clean : (n : ℕ) → any_is separator (fillers n) ≡ false
unfolding any_is
fillers_clean zero = refl
fillers_clean (suc n) = fillers_clean n

shifted_clean :
    (bs : List ℕ) (s : Text)
    → any_is separator s ≡ false
    → any_is separator (shifted bs ++ s) ≡ false
unfolding any_is
shifted_clean [] s h = h
shifted_clean (b ∷ bs) s h = ground (arith, shifted_clean bs s h)

unshifted-fillers : (n : ℕ) → unshifted (fillers n) ≡ []
unshifted-fillers zero = refl
unshifted-fillers (suc n) = unshifted-fillers n

unshifted-shifted : (bs : List ℕ) (n : ℕ) → unshifted (shifted bs ++ fillers n) ≡ bs
unshifted-shifted [] n = unshifted-fillers n
unshifted-shifted (b ∷ bs) n = ground (arith, unshifted-shifted bs n)

shifted_size : (bs : List ℕ) → length (shifted bs ++ filled bs) ≡ (length bs * 8 + 5) / 6
shifted_size bs =
    omega
      (arith, length-shifted bs (filled bs), length-fillers ((length bs * 8 + 5) / 6 - length bs))

decoded : (bs : List ℕ) → some (unshifted (shifted bs ++ filled bs)) ≡ some bs
decoded bs = rw (unshifted-shifted bs ((length bs * 8 + 5) / 6 - length bs)) refl

abbrev codec : Codec
codec = record {
  encode = λ bs. shifted bs ++ filled bs;
  decode = λ s. some (unshifted s);
  digest = λ s. length s ∷ [];
  length-encode = shifted_size;
  in_alphabet =
      λ bs. shifted_clean bs (filled bs) (fillers_clean ((length bs * 8 + 5) / 6 - length bs));
  decodes = decoded;
  length-digest = λ s t. refl;
}

abbrev bytes : ℕ → ℕ → List ℕ
bytes b zero = []
bytes b (suc n) = b ∷ bytes b n

abbrev draw_of : ℕ → KeyDraw
draw_of id = record { lookup = some (bytes id 16); secret = some (bytes 9 32); id = id; now = 100 }

abbrev no_view : KeyRow
no_view = record {
  scope = [];
  name = [];
  prefix = [];
  secret_hash = [];
  created_at = 0;
  revoked_at = none;
}

abbrev no_key : Table KeyRow × Created
no_key = ([], record { key = view 0 no_view; raw = [] })

abbrev first_key : Table KeyRow × Created
first_key = value no_key (create codec [] (text " s ") (text "n") (draw_of 1) (draw_of 2))

abbrev second_key : Table KeyRow × Created
second_key = value no_key (create codec first_key.0 (text "s") (text "m") (draw_of 3) (draw_of 4))

abbrev revocation : Table KeyRow × RevokeResult
revocation =
    value (first_key.0, record { key = view 0 no_view; already_revoked = true })
      (revoke second_key.0 1 500)

first_ok : create codec [] (text " s ") (text "n") (draw_of 1) (draw_of 2) ≡ ok first_key
unfolding create create_attempt generate_material find put find_where count is_printable_within
    valid_key_request trim_space raw text_eq
first_ok = refl

second_ok : create codec first_key.0 (text "s") (text "m") (draw_of 3) (draw_of 4) ≡ ok second_key
unfolding create create_attempt generate_material find put find_where count is_printable_within
    valid_key_request trim_space raw text_eq
second_ok = refl

revocation_ok : revoke second_key.0 1 500 ≡ ok revocation
unfolding create create_attempt generate_material find put find_where count is_printable_within
    valid_key_request trim_space raw text_eq revoke get update
revocation_ok = refl

abbrev principal : Principal
principal = record { key_id = 3; scope = text "s" }

accepted_ok : authenticate codec revocation.0 second_key.1.raw ≡ ok principal
unfolding create create_attempt generate_material find put find_where count is_printable_within
    valid_key_request trim_space raw text_eq revoke get update authenticate parse_key verify_secret
    any_is cut cut_prefix
accepted_ok = refl

no_keys : IsUnique []
unfolding count
no_keys = record { keyed = tt; one_each = λ p. omega arith }

both_keys : IsUnique second_key.0
both_keys = KeyRun-IsUnique codec [] second_key.0 no_keys (
    step (step stop (by_create (text " s ") (text "n") (draw_of 1) (draw_of 2) first_key first_ok))
      (by_create (text "s") (text "m") (draw_of 3) (draw_of 4) second_key second_ok))

after_revocation : IsUnique revocation.0
after_revocation =
    KeyRun-IsUnique codec second_key.0 revocation.0 both_keys
      (step stop (by_revoke 1 500 revocation revocation_ok))

create-authenticate_example :
    authenticate codec first_key.0 first_key.1.raw
    ≡ ok (record { key_id = first_key.1.key.id; scope = trim_space (text " s ") })
create-authenticate_example =
    create-authenticate codec [] (text " s ") (text "n") (bytes 1 16) (bytes 9 32) (bytes 2 16)
      (bytes 9 32) 1 100 2 100 first_key refl refl refl refl first_ok

authenticate-ok_example :
    (k : KeyRow) × (secret : Text) × (find principal.key_id revocation.0 ≡ some k)
    × (principal.scope ≡ k.scope)
    × (k.revoked_at ≡ none)
    × (second_key.1.raw
        ≡ raw (record { prefix = k.prefix; secret = secret; secret_hash = k.secret_hash }))
    × (k.secret_hash ≡ codec.digest secret)
authenticate-ok_example =
    authenticate-ok codec revocation.0 second_key.1.raw principal after_revocation accepted_ok

revoked_is_refused_example : principal.key_id ≢ 1
revoked_is_refused_example =
    revoked_is_refused codec second_key.0 revocation.0 1 500 revocation second_key.1.raw principal
      both_keys revocation_ok stop accepted_ok
