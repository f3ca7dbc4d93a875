-- ===== src/Credentials/Hex.antt =====
-- Hex digits, as `toString("hex")` writes them and `Buffer.from` reads them.
use termlink.Prelude.{ℕ, ◌/◌, ◌%◌, ◌<◌, ◌≡◌, ◌≢◌, refl, ap, [], ◌∷◌, some, All, arith}
use termlink.Credentials.{Bytes, to_hex, from_hex, hex_digit, hex_value, paired, dollar}

abbrev pub IsByte : ℕ → Type 0
IsByte b = b < 256

hex_value-hex_digit : (n : ℕ) → n < 16 → hex_value (hex_digit n) ≡ some n
hex_value-hex_digit n h = ground arith

pub hex_digit-ne-dollar : (n : ℕ) → hex_digit n ≢ dollar
hex_digit-ne-dollar n h = ground arith

pub from_hex-to_hex : (bytes : Bytes) → All IsByte bytes → from_hex (to_hex bytes) ≡ bytes
unfolding from_hex to_hex paired
from_hex-to_hex [] h = refl
from_hex-to_hex (b ∷ bytes) h =
    let high : b / 16 < 16 = omega (arith, h.0) in
    let low : b % 16 < 16 = omega arith in
    rw
      (
        hex_value-hex_digit (b / 16) high,
        hex_value-hex_digit (b % 16) low,
        from_hex-to_hex bytes h.1,
      )
      (ap (◌∷ bytes) (omega arith))
