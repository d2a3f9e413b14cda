-- ===== src/Text/Trim.antt =====
-- `strings.TrimSpace` and `strings.TrimRightFunc(s, unicode.IsSpace)`. White space is that of
-- Unicode, in UTF-8: six ASCII bytes, two characters of two bytes and sixteen of three.
use mathlib.Core.List.{reverse-append, reverse-reverse}
use laitos.Base.{
  ℕ, zero, suc, ◌≤◌, ◌≡◌, Bool, ◌&&◌, ◌||◌, [], ◌∷◌, reverse, arith, Bytes, leb, ◌==◌,
  if◌then◌else◌, is_space, length, length-reverse, false, true, not, ltb, refl, ap, ◌∙◌, ◌++◌, ◌<◌,
}

-- U+0085 and U+00A0.
is_space_2 : ℕ → ℕ → Bool
is_space_2 a b = a == 0xC2 && (b == 0x85 || b == 0xA0)

-- U+1680, U+2000 to U+200A, U+2028, U+2029, U+202F, U+205F and U+3000.
is_space_3 : ℕ → ℕ → ℕ → Bool
is_space_3 a b c =
    (a == 0xE1 && b == 0x9A && c == 0x80)
    || (a == 0xE2 && b == 0x80 && (leb 0x80 c && leb c 0x8A || c == 0xA8 || c == 0xA9 || c == 0xAF))
    || (a == 0xE2 && b == 0x81 && c == 0x9F)
    || (a == 0xE3 && b == 0x80 && c == 0x80)

-- The bytes of the white space that a text begins with, 0 if it begins with none.
first_space : Bytes → ℕ
unfolding is_space_2 is_space_3
first_space [] = 0
first_space (a ∷ []) = if is_space a then 1 else 0
first_space (a ∷ b ∷ []) = if is_space a then 1 else if is_space_2 a b then 2 else 0
first_space (a ∷ b ∷ c ∷ s) =
    if is_space a then 1 else if is_space_2 a b then 2 else if is_space_3 a b c then 3 else 0

-- The same of the white space that a text ends with, on the text reversed.
last_space : Bytes → ℕ
unfolding is_space_2 is_space_3
last_space [] = 0
last_space (a ∷ []) = if is_space a then 1 else 0
last_space (b ∷ a ∷ []) = if is_space b then 1 else if is_space_2 a b then 2 else 0
last_space (c ∷ b ∷ a ∷ s) =
    if is_space c then 1 else if is_space_2 b c then 2 else if is_space_3 a b c then 3 else 0

-- Drops white space at the head, `skip` bytes of which are yet to go.
strip : (Bytes → ℕ) → ℕ → Bytes → Bytes
strip width zero [] = []
strip width zero (a ∷ s) = elim (width (a ∷ s)) [ zero ↦ a ∷ s | suc k ↦ strip width k s ]
strip width (suc k) [] = []
strip width (suc k) (a ∷ s) = strip width k s

unfoldable pub trim_left : Bytes → Bytes
unfolding strip first_space
trim_left s = strip first_space 0 s

unfoldable pub trim_right : Bytes → Bytes
unfolding strip last_space
trim_right s = reverse (strip last_space 0 (reverse s))

unfoldable pub trim_space : Bytes → Bytes
unfolding trim_left trim_right
trim_space s = trim_right (trim_left s)

length-strip : (width : Bytes → ℕ) (skip : ℕ) (s : Bytes) → length (strip width skip s) ≤ length s
unfolding strip
length-strip width zero [] = omega arith
length-strip width zero (a ∷ s) =
    elim (width (a ∷ s))
      as (λ w.
        length (unfold strip in elim w as (λ _. Bytes) [ zero ↦ a ∷ s | suc k ↦ strip width k s ])
        ≤ suc (length s)) [ zero ↦ omega arith | suc k ↦ omega (arith, length-strip width k s) ]
length-strip width (suc k) [] = omega arith
length-strip width (suc k) (a ∷ s) = omega (arith, length-strip width k s)

pub length-trim_left : (s : Bytes) → length (trim_left s) ≤ length s
unfolding trim_left
length-trim_left s = length-strip first_space 0 s

pub length-trim_right : (s : Bytes) → length (trim_right s) ≤ length s
unfolding trim_right
length-trim_right s = omega (
  arith,
  length-strip last_space 0 (reverse s),
  length-reverse s,
  length-reverse (strip last_space 0 (reverse s)),
)

pub length-trim_space : (s : Bytes) → length (trim_space s) ≤ length s
unfolding trim_space
length-trim_space s = omega (arith, length-trim_left s, length-trim_right (trim_left s))

last_space_visible : (c : ℕ) (s : Bytes) → is_space c ≡ false → c < 128 → last_space (c ∷ s) ≡ 0
unfolding last_space is_space_2 is_space_3
last_space_visible c [] v h = ground arith
last_space_visible c (b ∷ []) v h = ground arith
last_space_visible c (b ∷ a ∷ s) v h = ground arith

first_space_visible : (c : ℕ) (s : Bytes) → is_space c ≡ false → c < 128 → first_space (c ∷ s) ≡ 0
unfolding first_space is_space_2 is_space_3
first_space_visible c [] v h = ground arith
first_space_visible c (b ∷ []) v h = ground arith
first_space_visible c (b ∷ a ∷ s) v h = ground arith

-- A text that ends with a visible ASCII byte has nothing to trim there.
pub trim_right_visible :
    (s : Bytes) (c : ℕ) → is_space c ≡ false → c < 128 → trim_right (s ++ (c ∷ [])) ≡ s ++ (c ∷ [])
unfolding trim_right strip
trim_right_visible s c v h = rw (reverse-append s (c ∷ [])) (
    rw (last_space_visible c (reverse s) v h, strip)
      (rw (← reverse-append s (c ∷ [])) (reverse-reverse (s ++ (c ∷ [])))))

-- Likewise at the front.
pub trim_left_visible :
    (c : ℕ) (s : Bytes) → is_space c ≡ false → c < 128 → trim_left (c ∷ s) ≡ c ∷ s
unfolding trim_left strip
trim_left_visible c s v h = rw (first_space_visible c s v h, strip)

-- A visible ASCII byte.
abbrev pub visible : ℕ → Bool
visible c = not (is_space c) && ltb c 128

abbrev pub all_visible : Bytes → Bool
all_visible [] = true
all_visible (c ∷ s) = visible c && all_visible s

pub all_visible-append : (s t : Bytes) → all_visible (s ++ t) ≡ (all_visible s && all_visible t)
all_visible-append [] t = refl
all_visible-append (c ∷ s) t = ground (arith, all_visible-append s t)

all_visible-reverse : (s : Bytes) → all_visible (reverse s) ≡ all_visible s
all_visible-reverse [] = refl
all_visible-reverse (c ∷ s) =
    ap all_visible (reverse-append (c ∷ []) s)
    ∙ all_visible-append (reverse s) (c ∷ [])
    ∙ ground (arith, all_visible-reverse s)

strip_left_all : (s : Bytes) → all_visible s ≡ true → strip first_space 0 s ≡ s
unfolding strip
strip_left_all [] v = refl
strip_left_all (c ∷ s) v = rw (first_space_visible c s (ground arith) (ground arith), strip)

strip_right_all : (s : Bytes) → all_visible s ≡ true → strip last_space 0 s ≡ s
unfolding strip
strip_right_all [] v = refl
strip_right_all (c ∷ s) v = rw (last_space_visible c s (ground arith) (ground arith), strip)

-- A text of visible ASCII bytes alone has nothing to trim.
pub trim_space-all_visible : (s : Bytes) → all_visible s ≡ true → trim_space s ≡ s
unfolding trim_space trim_left trim_right
trim_space-all_visible s v =
    ap trim_right (strip_left_all s v)
    ∙ ap reverse (strip_right_all (reverse s) (all_visible-reverse s ∙ v))
    ∙ reverse-reverse s
