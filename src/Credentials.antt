-- ===== src/Credentials.antt =====
-- server/src/auth.ts: hashed secrets and the store of credentials. A stored text is the list of its
-- character codes, a buffer the list of its bytes. `scrypt` of Node is a parameter, and the random
-- salts are arguments. Key lengths are read as `Number` reads decimal digits, which is how
-- `hashSecret` writes them; any other text is NaN here.
pub mod Hex
pub mod Stored
pub mod Login
mod Tests
use termlink.Prelude.{
  ℕ, zero, suc, ◌+◌, ◌*◌, ◌-◌, ◌/◌, ◌%◌, String, Bool, true, false, ◌&&◌, ◌||◌, List, [], ◌∷◌, ◌++◌,
  Option, none, some, ltb, leb, ◌===◌, length, if◌then◌else◌,
}
use termlink.Prelude.Dict.{Dict, get, put}

abbrev pub Text : Type 0
Text = List ℕ

abbrev pub Bytes : Type 0
Bytes = List ℕ

-- `"$"`
abbrev pub dollar : ℕ
dollar = 36

-- `"scrypt"`
abbrev pub scrypt_format : Text
scrypt_format = 115 ∷ 99 ∷ 114 ∷ 121 ∷ 112 ∷ 116 ∷ []

abbrev pub key_length : ℕ
key_length = 64

-- `"64"`
abbrev pub key_length_text : Text
key_length_text = 54 ∷ 52 ∷ []

-- `buffer.toString("hex")`
abbrev pub hex_digit : ℕ → ℕ
hex_digit n = if ltb n 10 then 48 + n else 87 + n

unfoldable pub to_hex : Bytes → Text
to_hex [] = []
to_hex (b ∷ bytes) = hex_digit (b / 16) ∷ hex_digit (b % 16) ∷ to_hex bytes

abbrev pub within : ℕ → ℕ → ℕ → Bool
within low high c = leb low c && leb c high

abbrev pub hex_value : ℕ → Option ℕ
hex_value c =
    if within 48 57 c
    then some (c - 48)
    else if within 97 102 c
    then some (c - 87)
    else if within 65 70 c
    then some (c - 55)
    else none

unfoldable pub paired : Option ℕ → Option ℕ → Bytes → Bytes
paired (some a) (some b) rest = (16 * a + b) ∷ rest
paired _ _ rest = []

-- `Buffer.from(text, "hex")`, which stops at the first pair that is not two hex digits.
unfoldable pub from_hex : Text → Bytes
unfolding paired
from_hex (a ∷ b ∷ text) = paired (hex_value a) (hex_value b) (from_hex text)
from_hex _ = []

-- `text.split(separator)`: the first part and the parts behind it.
unfoldable pub split : ℕ → Text → Text × List Text
split separator [] = ([], [])
split separator (c ∷ text) =
    let (part, parts) = split separator text in
    if c === separator then ([], part ∷ parts) else (c ∷ part, parts)

-- `Number` of decimal digits, from the value of those in front.
abbrev pub number_from : ℕ → Text → Option ℕ
number_from n [] = some n
number_from n (c ∷ text) = if within 48 57 c then number_from (10 * n + (c - 48)) text else none

abbrev pub same_codes : List ℕ → List ℕ → Bool
same_codes [] [] = true
same_codes (x ∷ xs) (y ∷ ys) = x === y && same_codes xs ys
same_codes _ _ = false

abbrev pub is_empty : List ℕ → Bool
is_empty [] = true
is_empty _ = false

pub record ScryptHash : Type 0 where
  pub salt : Bytes
  pub hash : Bytes
  pub keylen : ℕ

-- `none` where `parseHash` throws "Malformed stored hash".
unfoldable pub checked_hash : Option ℕ → Bytes → Bytes → Option ScryptHash
checked_hash none salt hash = none
checked_hash (some keylen) salt hash =
    if is_empty salt || is_empty hash
    then none
    else some (record { salt = salt; hash = hash; keylen = keylen })

unfoldable pub parse_parts : Text × List Text → Option ScryptHash
unfolding checked_hash from_hex
parse_parts (format, keylen ∷ salt ∷ hash ∷ []) =
    if same_codes format scrypt_format
    then checked_hash (number_from 0 keylen) (from_hex salt) (from_hex hash)
    else none
parse_parts _ = none

unfoldable pub parse_hash : Text → Option ScryptHash
unfolding parse_parts split
parse_hash stored = parse_parts (split dollar stored)

-- `scrypt secret salt keylen`
abbrev pub Scrypt : Type 0
Scrypt = String → Bytes → ℕ → Bytes

module _ (scrypt : Scrypt) where
  -- `hashSecret` and `hashSecretSync`
  unfoldable pub hash_secret : String → Bytes → Text
  unfolding to_hex
  hash_secret secret salt =
      let salt_and_key = to_hex salt ++ dollar ∷ to_hex (scrypt secret salt key_length) in
      scrypt_format ++ dollar ∷ (key_length_text ++ dollar ∷ salt_and_key)

  -- `timingSafeEqual` compares buffers of one length.
  unfoldable pub matches : String → ScryptHash → Bool
  matches secret parsed =
      let candidate = scrypt secret parsed.salt parsed.keylen in
      length candidate === length parsed.hash && same_codes candidate parsed.hash

  unfoldable pub verify_secret : String → Text → Bool
  unfolding parse_hash matches
  verify_secret secret stored = elim (parse_hash stored) [
    | none ↦ false
    | some parsed ↦ matches secret parsed
  ]

  -- The constructor's loops, with a salt drawn for each secret.
  unfoldable pub hash_tokens : List (String × Bytes) → List Text
  unfolding hash_secret
  hash_tokens [] = []
  hash_tokens ((token, salt) ∷ tokens) = hash_secret token salt ∷ hash_tokens tokens

  unfoldable pub hash_passwords : List (String × (String × Bytes)) → Dict Text → Dict Text
  unfolding hash_secret
  hash_passwords [] users = users
  hash_passwords ((username, (password, salt)) ∷ rest) users =
      hash_passwords rest (put users username (hash_secret password salt))

pub record CredentialStore : Type 0 where
  pub token_hashes : List Text
  pub password_users : Dict Text

unfoldable pub new_store :
    Scrypt → List (String × Bytes) → List (String × (String × Bytes)) → CredentialStore
new_store scrypt tokens users = record {
  token_hashes = hash_tokens scrypt tokens;
  password_users = hash_passwords scrypt users [];
}

unfoldable pub verify_any : Scrypt → String → List Text → Bool
verify_any scrypt token [] = false
verify_any scrypt token (hash ∷ hashes) =
    if verify_secret scrypt token hash then true else verify_any scrypt token hashes

unfoldable pub verify_token : Scrypt → String → CredentialStore → Bool
unfolding verify_any
verify_token scrypt token store = verify_any scrypt token store.token_hashes

-- An empty text is as good as none.
unfoldable pub verify_stored : Scrypt → String → Option Text → Bool
verify_stored scrypt password none = false
verify_stored scrypt password (some stored) =
    if is_empty stored then false else verify_secret scrypt password stored

unfoldable pub verify_password : Scrypt → String → String → CredentialStore → Bool
unfolding verify_stored
verify_password scrypt username password store =
    verify_stored scrypt password (get store.password_users username)

abbrev pub token_count : CredentialStore → ℕ
token_count store = length store.token_hashes

abbrev pub has_passwords : CredentialStore → Bool
has_passwords store = ltb 0 (length store.password_users)
