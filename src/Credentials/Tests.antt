-- ===== src/Credentials/Tests.antt =====
-- A key derivation that is easy to follow, in place of scrypt.
use termlink.Prelude.{◌≡◌, ◌↔◌, refl, true, ◌∷◌, [], ◌==◌, if◌then◌else◌, arith}
use termlink.Credentials.{Bytes, Scrypt, key_length, to_hex, hash_secret, verify_secret}
use termlink.Credentials.Stored.{IsBuffer}
use termlink.Credentials.Login.{SameKey, verify_secret-hash_secret}

abbrev derive : Scrypt
derive secret salt keylen = if secret == "opensesame" then 1 ∷ 255 ∷ [] else 2 ∷ 254 ∷ []

abbrev salt : Bytes
salt = 0 ∷ 171 ∷ []

salt-IsBuffer : IsBuffer salt
salt-IsBuffer = (refl, (omega arith, (omega arith, tt)))

key-IsBuffer : IsBuffer (derive "opensesame" salt key_length)
key-IsBuffer = (refl, (omega arith, (omega arith, tt)))

verify_secret-hash_secret_example :
    (verify_secret derive "guess" (hash_secret derive "opensesame" salt) ≡ true)
    ↔ SameKey derive "guess" "opensesame" salt
verify_secret-hash_secret_example =
    verify_secret-hash_secret derive "guess" "opensesame" salt salt-IsBuffer key-IsBuffer

-- `scrypt$64$00ab$01ff`
stored_text :
    hash_secret derive "opensesame" salt
    ≡ 115 ∷ 99 ∷ 114 ∷ 121 ∷ 112 ∷ 116 ∷ 36 ∷ 54 ∷ 52 ∷ 36 ∷ 48 ∷ 48 ∷ 97 ∷ 98 ∷ 36 ∷ 48 ∷ 49 ∷ 102
      ∷ 102 ∷ []
unfolding hash_secret to_hex
stored_text = refl
