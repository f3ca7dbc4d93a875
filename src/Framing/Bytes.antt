-- ===== src/Framing/Bytes.antt =====
-- The length field of a frame: four bytes, most significant first.
use termlink.Prelude.{ℕ, ◌≤◌, ◌<◌, ◌≡◌, refl, List, [], ◌∷◌, ◌++◌, arith, length, All}
use termlink.Framing.{uint32_be, read_uint32_be, u32_limit}

-- A length below 2 ^ 32 is read back from its four bytes, whatever follows them.
pub read_uint32_be-uint32_be :
    (n : ℕ) (rest : List ℕ) → n < u32_limit → read_uint32_be (uint32_be n ++ rest) ≡ n
unfolding uint32_be read_uint32_be
read_uint32_be-uint32_be n rest h = omega arith

pub length-uint32_be : (n : ℕ) → length (uint32_be n) ≡ 4
unfolding uint32_be
length-uint32_be n = refl

pub uint32_be-bytes : (n : ℕ) → All (λ b. b < 256) (uint32_be n)
unfolding uint32_be
uint32_be-bytes n = omega arith

-- The field does not depend on what stands behind it.
pub read_uint32_be-append :
    (b c : List ℕ) → 4 ≤ length b → read_uint32_be (b ++ c) ≡ read_uint32_be b
unfolding read_uint32_be
read_uint32_be-append (x ∷ y ∷ z ∷ w ∷ b) c h = refl
read_uint32_be-append [] c h = absurd (omega arith)
read_uint32_be-append (x ∷ []) c h = absurd (omega arith)
read_uint32_be-append (x ∷ y ∷ []) c h = absurd (omega arith)
read_uint32_be-append (x ∷ y ∷ z ∷ []) c h = absurd (omega arith)
