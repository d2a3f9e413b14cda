-- ===== src/Text/Utf8.antt =====
-- The characters of a string: what Go's `range` over a string, and a conversion to `[]rune`,
-- read. A byte that begins no valid encoding is a character of one byte, U+FFFD.
use laitos.Base.{
  ℕ, zero, suc, Bool, true, false, ◌&&◌, List, [], ◌∷◌, Bytes, leb, ltb, ◌==◌, if◌then◌else◌, ◌≤◌,
  arith, length,
}

abbrev within : ℕ → ℕ → ℕ → Bool
within lo hi b = leb lo b && leb b hi

abbrev continues : ℕ → Bool
continues = within 0x80 0xBF

-- The second byte of an encoding, by the first.
second_fits : ℕ → ℕ → Bool
second_fits a b =
    if a == 0xE0
    then within 0xA0 0xBF b
    else if a == 0xED
    then within 0x80 0x9F b
    else if a == 0xF0
    then within 0x90 0xBF b
    else if a == 0xF4
    then within 0x80 0x8F b
    else continues b

-- A character is a chunk of bytes, and may be invalid.
pub record Char : Type 0 where
  pub bytes : Bytes
  pub valid : Bool

abbrev invalid : ℕ → Char
invalid a = record { bytes = a ∷ []; valid = false }

-- The character that a text begins with.
first_char : Bytes → Char
unfolding second_fits
first_char [] = record { bytes = []; valid = false }
first_char (a ∷ []) = record { bytes = a ∷ []; valid = ltb a 0x80 }
first_char (a ∷ b ∷ []) =
    if ltb a 0x80
    then record { bytes = a ∷ []; valid = true }
    else if within 0xC2 0xDF a && continues b
    then record { bytes = a ∷ b ∷ []; valid = true }
    else invalid a
first_char (a ∷ b ∷ c ∷ []) =
    if ltb a 0x80
    then record { bytes = a ∷ []; valid = true }
    else if within 0xC2 0xDF a && continues b
    then record { bytes = a ∷ b ∷ []; valid = true }
    else if within 0xE0 0xEF a && second_fits a b && continues c
    then record { bytes = a ∷ b ∷ c ∷ []; valid = true }
    else invalid a
first_char (a ∷ b ∷ c ∷ d ∷ s) =
    if ltb a 0x80
    then record { bytes = a ∷ []; valid = true }
    else if within 0xC2 0xDF a && continues b
    then record { bytes = a ∷ b ∷ []; valid = true }
    else if within 0xE0 0xEF a && second_fits a b && continues c
    then record { bytes = a ∷ b ∷ c ∷ []; valid = true }
    else if within 0xF0 0xF4 a && second_fits a b && continues c && continues d
    then record { bytes = a ∷ b ∷ c ∷ d ∷ []; valid = true }
    else invalid a

-- The bytes behind the first of a chunk.
abbrev extra : Bytes → ℕ
extra [] = 0
extra (a ∷ s) = length s

-- All characters; `skip` bytes belong to the one before.
chars_from : ℕ → Bytes → List Char
chars_from zero [] = []
chars_from zero (a ∷ s) = first_char (a ∷ s) ∷ chars_from (extra (first_char (a ∷ s)).bytes) s
chars_from (suc skip) [] = []
chars_from (suc skip) (a ∷ s) = chars_from skip s

unfoldable pub chars : Bytes → List Char
unfolding chars_from first_char
chars s = chars_from 0 s

length-chars_from : (skip : ℕ) (s : Bytes) → length (chars_from skip s) ≤ length s
unfolding chars_from
length-chars_from zero [] = omega arith
length-chars_from zero (a ∷ s) =
    omega (arith, length-chars_from (extra (first_char (a ∷ s)).bytes) s)
length-chars_from (suc skip) [] = omega arith
length-chars_from (suc skip) (a ∷ s) = omega (arith, length-chars_from skip s)

pub length-chars : (s : Bytes) → length (chars s) ≤ length s
unfolding chars
length-chars s = length-chars_from 0 s
