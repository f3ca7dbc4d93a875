-- ===== src/Credentials/Stored.antt =====
-- The stored form of a secret, written and read back.
use termlink.Prelude.{ℕ, ◌≡◌, ◌≢◌, refl, ap, ◌∙◌, String, false, [], ◌∷◌, ◌++◌, some, All, arith}
use termlink.Credentials.{
  Bytes, Text, Scrypt, to_hex, dollar, split, parse_hash, parse_parts, checked_hash, hash_secret,
  scrypt_format, key_length_text, key_length, is_empty,
}
use termlink.Credentials.Hex.{IsByte, from_hex-to_hex, hex_digit-ne-dollar}

abbrev pub HasNo : ℕ → Text → Type 0
HasNo separator text = All (λ c. c ≢ separator) text

pub split-append :
    (separator : ℕ) (part rest : Text)
    → HasNo separator part
    → split separator (part ++ separator ∷ rest)
      ≡ (part, (split separator rest).0 ∷ (split separator rest).1)
unfolding split
split-append s [] rest h = ground arith
split-append s (c ∷ part) rest h = ground (arith, split-append s part rest h.1, h.0)

pub split_whole :
    (separator : ℕ) (part : Text) → HasNo separator part → split separator part ≡ (part, [])
unfolding split
split_whole s [] h = refl
split_whole s (c ∷ part) h = ground (arith, split_whole s part h.1, h.0)

split_four :
    (separator : ℕ) (a b c d : Text)
    → HasNo separator a
    → HasNo separator b
    → HasNo separator c
    → HasNo separator d
    → split separator (a ++ separator ∷ (b ++ separator ∷ (c ++ separator ∷ d)))
      ≡ (a, b ∷ c ∷ d ∷ [])
split_four s a b c d ha hb hc hd =
    rw
      (
        split-append s a (b ++ s ∷ (c ++ s ∷ d)) ha,
        split-append s b (c ++ s ∷ d) hb,
        split-append s c d hc,
        split_whole s d hd,
      )
      refl

to_hex-HasNo : (bytes : Bytes) → HasNo dollar (to_hex bytes)
unfolding to_hex
to_hex-HasNo [] = tt
to_hex-HasNo (b ∷ bytes) = (hex_digit-ne-dollar _, (hex_digit-ne-dollar _, to_hex-HasNo bytes))

-- What a salt and a derived key have to be: some bytes.
abbrev pub IsBuffer : Bytes → Type 0
IsBuffer bytes = (is_empty bytes ≡ false) × All IsByte bytes

-- The stored form of a secret is never malformed, and gives back its salt, its derived key and
-- the length of the key, for a salt and a derived key of some bytes.
pub parse_hash-hash_secret :
    (scrypt : Scrypt) (secret : String) (salt : Bytes)
    → IsBuffer salt
    → IsBuffer (scrypt secret salt key_length)
    → parse_hash (hash_secret scrypt secret salt)
      ≡ some (record { salt = salt; hash = scrypt secret salt key_length; keylen = key_length })
unfolding parse_hash parse_parts checked_hash hash_secret
parse_hash-hash_secret scrypt secret salt s k =
    let key = scrypt secret salt key_length in
    let format_free : HasNo dollar scrypt_format = ground arith in
    let length_free : HasNo dollar key_length_text = ground arith in
    ap parse_parts (
      split_four dollar scrypt_format key_length_text (to_hex salt) (to_hex key) format_free
        length_free (to_hex-HasNo salt) (to_hex-HasNo key))
    ∙ ground (arith, from_hex-to_hex salt s.1, from_hex-to_hex key k.1)
