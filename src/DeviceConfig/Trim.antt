-- ===== src/DeviceConfig/Trim.antt =====
-- Texts that `trim` leaves as they are.
use termlink.Prelude.{◌≡◌, ◌&&◌, refl, ap, ◌∙◌, Bool, true, false, not, [], ◌∷◌, ◌++◌, arith}
use termlink.Credentials.{Text, is_empty}
use termlink.DeviceConfig.{is_white, trim_start, trim_end, trim}

-- The first code unit is there, and no white space.
abbrev pub starts_well : Text → Bool
starts_well [] = false
starts_well (c ∷ text) = not (is_white c)

-- The same of the last.
abbrev pub ends_well : Text → Bool
ends_well [] = false
ends_well (c ∷ []) = not (is_white c)
ends_well (c ∷ d ∷ text) = ends_well (d ∷ text)

pub record IsWord (text : Text) : Type 0 where
  pub first : starts_well text ≡ true
  pub last : ends_well text ≡ true

pub IsWord-nonempty : (text : Text) → IsWord text → is_empty text ≡ false
IsWord-nonempty [] w = ground (arith, w)
IsWord-nonempty (c ∷ text) w = refl

and_false : (b : Bool) → (b && false) ≡ false
and_false true = refl
and_false false = refl

trim_start_well : (text : Text) → starts_well text ≡ true → trim_start text ≡ text
unfolding trim_start
trim_start_well [] h = refl
trim_start_well (c ∷ text) h = ground (arith, h)

trim_end_well : (text : Text) → ends_well text ≡ true → trim_end text ≡ text
unfolding trim_end
trim_end_well [] h = refl
trim_end_well (c ∷ []) h = ground (arith, h)
trim_end_well (c ∷ d ∷ text) h =
    let rest : trim_end (d ∷ text) ≡ d ∷ text = trim_end_well (d ∷ text) h in
    rw (rest, and_false (is_white c)) refl

pub trim-word : (text : Text) → IsWord text → trim text ≡ text
unfolding trim
trim-word text w = ap trim_end (trim_start_well text w.first) ∙ trim_end_well text w.last

starts_well-append :
    (front back : Text) → starts_well front ≡ true → starts_well (front ++ back) ≡ true
starts_well-append [] back h = ground (arith, h)
starts_well-append (c ∷ front) back h = h

ends_well-append : (front back : Text) → ends_well back ≡ true → ends_well (front ++ back) ≡ true
ends_well-append [] back h = h
ends_well-append (c ∷ []) [] h = ground (arith, h)
ends_well-append (c ∷ []) (d ∷ back) h = h
ends_well-append (c ∷ d ∷ front) back h = ends_well-append (d ∷ front) back h

-- Two words with anything in between make a word.
pub IsWord-append :
    (front between back : Text) → IsWord front → IsWord back → IsWord (front ++ (between ++ back))
IsWord-append front between back f b = record {
  first = starts_well-append front (between ++ back) f.first;
  last = ends_well-append front (between ++ back) (ends_well-append between back b.last);
}
