-- ===== src/Auth/Key.antt =====
-- internal/auth/key.go: the wire format of a credential, `tfk_<lookup>.<secret>`. The base64 codec,
-- SHA-256 and the randomness source belong to Go and are parameters.
pub mod Laws
use task_forge.Base.{
  Text, ℕ, ◌+◌, ◌*◌, ◌/◌, ◌≡◌, Bool, true, false, not, ◌||◌, ◌&&◌, Option, none, some, List, [],
  ◌∷◌, ◌++◌, ltb, ◌==◌, text, text_eq, length, if◌then◌else◌, Result, ok, err, Error, ◌>>=◌, ◌>>◌,
  guard, or_fail, refuse, validation_failed, is_some,
}

abbrev pub key_prefix : Text
key_prefix = text "tfk_"

abbrev pub separator : ℕ
separator = 46

abbrev pub lookup_bytes : ℕ
lookup_bytes = 16

abbrev pub secret_bytes : ℕ
secret_bytes = 32

abbrev pub lookup_len : ℕ
lookup_len = (lookup_bytes * 8 + 5) / 6

abbrev pub secret_len : ℕ
secret_len = (secret_bytes * 8 + 5) / 6

abbrev pub key_len : ℕ
key_len = 4 + lookup_len + 1 + secret_len

abbrev pub max_credential_len : ℕ
max_credential_len = 4 * key_len

-- A byte occurs in a text.
unfoldable pub any_is : ℕ → Text → Bool
any_is b [] = false
any_is b (c ∷ s) = c == b || any_is b s

-- base64.RawURLEncoding and SHA-256, with what their documentation promises.
pub record Codec : Type 0 where
  pub encode : List ℕ → Text
  pub decode : Text → Option (List ℕ)
  -- HashSecret: the digest in lowercase hexadecimal.
  pub digest : Text → Text
  -- The encoded form has ⌈8n/6⌉ characters of the alphabet, which has no `.`, and decodes.
  pub length-encode : (bytes : List ℕ) → length (encode bytes) ≡ (length bytes * 8 + 5) / 6
  pub in_alphabet : (bytes : List ℕ) → any_is separator (encode bytes) ≡ false
  pub decodes : (bytes : List ℕ) → decode (encode bytes) ≡ some bytes
  pub length-digest : (s t : Text) → length (digest s) ≡ length (digest t)

pub record Material : Type 0 where
  pub prefix : Text
  pub secret : Text
  pub secret_hash : Text

-- Material.Raw
unfoldable pub raw : Material → Text
raw m = key_prefix ++ (m.prefix ++ (separator ∷ m.secret))

pub record Presented : Type 0 where
  pub prefix : Text
  pub secret : Text

-- strings.CutPrefix
unfoldable pub cut_prefix : Text → Text → Option Text
cut_prefix [] s = some s
cut_prefix (p ∷ ps) [] = none
cut_prefix (p ∷ ps) (c ∷ s) = let rest = cut_prefix ps s in if p == c then rest else none

abbrev before_cut : ℕ → Option (Text × Text) → Option (Text × Text)
before_cut c none = none
before_cut c (some (a, b)) = some (c ∷ a, b)

-- strings.Cut, at the first separator.
unfoldable pub cut : ℕ → Text → Option (Text × Text)
cut sep [] = none
cut sep (c ∷ s) = let rest = cut sep s in if c == sep then some ([], s) else before_cut c rest

-- ConstantTimeCompare, whose two texts have one length.
abbrev pub verified : Text → Text → Bool
verified stored computed =
    if not (length stored == length computed) then false else text_eq stored computed

module _ (c : Codec) where
  open c use {encode, decode, digest}

  -- GenerateMaterial, from the bytes that io.ReadFull filled, or `none` where it could not.
  unfoldable pub generate_material : Option (List ℕ) → Option (List ℕ) → Result Material
  generate_material lookup secret = do
    l ← or_fail lookup Error.database_error
    s ← or_fail secret Error.database_error
    ok (record { prefix = encode l; secret = encode s; secret_hash = digest (encode s) })

  -- ParseKey
  unfoldable pub parse_key : Text → Result Presented
  parse_key raw = do
    refuse (ltb max_credential_len (length raw)) validation_failed
    guard (length raw == key_len) validation_failed
    rest ← or_fail (cut_prefix key_prefix raw) validation_failed
    parts ← or_fail (cut separator rest) validation_failed
    guard (length parts.0 == lookup_len && length parts.1 == secret_len) validation_failed
    guard (is_some (decode parts.0)) validation_failed
    guard (is_some (decode parts.1)) validation_failed
    ok (record { prefix = parts.0; secret = parts.1 })

  -- VerifySecret
  unfoldable pub verify_secret : Text → Text → Bool
  verify_secret stored secret = verified stored (digest secret)
