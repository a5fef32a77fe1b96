-- ===== src/Auth/Store.antt =====
-- internal/auth/store.go: the table of credentials. internal/workerauth/store.go is the same over a
-- table of its own.
pub mod Laws
pub mod Revocation
use task_forge.Base.{
  Text, ℕ, Bool, true, false, not, ◌||◌, ◌&&◌, ℤ, pos, negsuc, Option, none, some, List, [], ◌∷◌,
  ltb, leb, ◌==◌, text_eq, length, is_some, if◌then◌else◌, Result, ok, err, Error, ◌>>=◌, ◌>>◌,
  guard, or_fail, refuse, unauthorized, key_not_found, prefix_exhausted, validation_failed,
  database_error, trim_space, take,
}
use task_forge.Table.{Table, find, put, find_where, any, update}
use task_forge.Table.Scan.{ordered}
use task_forge.Auth.Key.{
  Codec, Material, Presented, generate_material, raw, parse_key, verify_secret,
}

-- A row of api_keys.
pub record KeyRow : Type 0 where
  pub scope : Text
  pub name : Text
  pub prefix : Text
  pub secret_hash : Text
  pub created_at : ℕ
  pub revoked_at : Option ℕ

-- Key: a row without the hash.
pub record KeyView : Type 0 where
  pub id : ℕ
  pub scope : Text
  pub name : Text
  pub prefix : Text
  pub created_at : ℕ
  pub revoked_at : Option ℕ

abbrev pub view : ℕ → KeyRow → KeyView
view id k = record {
  id = id;
  scope = k.scope;
  name = k.name;
  prefix = k.prefix;
  created_at = k.created_at;
  revoked_at = k.revoked_at;
}

-- Key.Revoked
abbrev pub revoked : KeyRow → Bool
revoked k = is_some k.revoked_at

abbrev all_printable : Text → Bool
all_printable [] = true
all_printable (c ∷ s) = not (ltb c 32 || c == 127) && all_printable s

-- isPrintableWithin. A byte of a longer UTF-8 sequence is above 127.
unfoldable pub is_printable_within : Text → ℕ → Bool
is_printable_within s max_len = not (ltb (length s) 1 || ltb max_len (length s)) && all_printable s

-- validateKeyRequest
unfoldable pub valid_key_request : Text → Text → Bool
valid_key_request scope name = is_printable_within scope 128 && is_printable_within name 128

abbrev pub has_prefix : Text → KeyRow → Bool
has_prefix prefix k = text_eq k.prefix prefix

-- What one attempt to mint a key drew: the bytes read, the UUID and the statement's time.
pub record KeyDraw : Type 0 where
  pub lookup : Option (List ℕ)
  pub secret : Option (List ℕ)
  pub id : ℕ
  pub now : ℕ

pub record Created : Type 0 where
  pub key : KeyView
  pub raw : Text

abbrev pub minted : Text → Text → ℕ → Material → KeyRow
minted scope name now m = record {
  scope = scope;
  name = name;
  prefix = m.prefix;
  secret_hash = m.secret_hash;
  created_at = now;
  revoked_at = none;
}

pub record Principal : Type 0 where
  pub key_id : ℕ
  pub scope : Text

pub record RevokeResult : Type 0 where
  pub key : KeyView
  pub already_revoked : Bool

module _ (c : Codec) where
  -- INSERT INTO api_keys: a second row with the prefix is `again`, with the id an error.
  abbrev pub insert_key :
      Table KeyRow
      → Text
      → Text
      → KeyDraw
      → Material
      → Result (Table KeyRow × Created)
      → Result (Table KeyRow × Created)
  insert_key keys scope name d m again =
      if any (has_prefix m.prefix) keys
      then again
      else if is_some (find d.id keys)
      then err database_error
      else (let row = minted scope name d.now m in
          ok (put d.id row keys, record { key = view d.id row; raw = raw m }))

  -- The body of Create's loop; `again` is what follows a collision.
  unfoldable pub create_attempt :
      Table KeyRow
      → Text
      → Text
      → KeyDraw
      → Result (Table KeyRow × Created)
      → Result (Table KeyRow × Created)
  create_attempt keys scope name d again = do
    m ← generate_material c d.lookup d.secret
    insert_key keys scope name d m again

  -- Create
  unfoldable pub create :
      Table KeyRow → Text → Text → KeyDraw → KeyDraw → Result (Table KeyRow × Created)
  unfolding create_attempt
  create keys scope name first second = do
    guard (valid_key_request (trim_space scope) (trim_space name)) validation_failed
    create_attempt keys (trim_space scope) (trim_space name) first
        (create_attempt keys (trim_space scope) (trim_space name) second (err prefix_exhausted))

  abbrev pub checked : Text → ℕ × KeyRow → Result Principal
  checked secret (id, k) = do
    guard (verify_secret c k.secret_hash secret) unauthorized
    refuse (revoked k) unauthorized
    ok (record { key_id = id; scope = k.scope })

  abbrev authenticate_parsed : Table KeyRow → Result Presented → Result Principal
  authenticate_parsed keys (err e) = err unauthorized
  authenticate_parsed keys (ok p) = do
    row ← or_fail (find_where (has_prefix p.prefix) keys) unauthorized
    checked p.secret row

  -- Authenticate
  unfoldable pub authenticate : Table KeyRow → Text → Result Principal
  authenticate keys credential = authenticate_parsed keys (parse_key c credential)

abbrev pub live : KeyRow → Bool
live k = not (revoked k)

abbrev pub revoke_row : ℕ → KeyRow → KeyRow
revoke_row now k = record k { revoked_at = some now }

-- Get
unfoldable pub get : Table KeyRow → ℕ → Result KeyView
get keys id = do k ← or_fail (find id keys) key_not_found; ok (view id k)

abbrev revoke_written :
    Table KeyRow → ℕ → Option (Table KeyRow) → Result (Table KeyRow × RevokeResult)
revoke_written keys id (some keys') = do
  k ← get keys' id
  ok (keys', record { key = k; already_revoked = false })
revoke_written keys id none = do
  k ← get keys id
  ok (keys, record { key = k; already_revoked = true })

-- Revoke
unfoldable pub revoke : Table KeyRow → ℕ → ℕ → Result (Table KeyRow × RevokeResult)
unfolding get
revoke keys id now = revoke_written keys id (update id live (revoke_row now) keys)

-- workerauth's IsRevoked: a key that is not there counts as revoked.
unfoldable pub is_revoked : Table KeyRow → ℕ → Bool
is_revoked keys id = elim (find id keys) [ none ↦ true | some k ↦ revoked k ]

abbrev newest_first : ℕ × KeyRow → ℕ × KeyRow → Bool
newest_first (i, a) (k, b) =
    if ltb b.created_at a.created_at
    then true
    else if ltb a.created_at b.created_at
    then false
    else ltb k i

-- The bound of List.
unfoldable pub list_limit : ℤ → ℕ
list_limit (pos n) = if n == 0 then 50 else if ltb 200 n then 200 else n
list_limit (negsuc n) = 50

abbrev views : Table KeyRow → List KeyView
views [] = []
views ((i, k) ∷ t) = view i k ∷ views t

-- List
unfoldable pub list : Table KeyRow → ℤ → List KeyView
unfolding list_limit
list keys limit = take (list_limit limit) (views (ordered newest_first keys))
