-- ===== src/Text/Numbers.antt =====
-- Decimal integers: what `fmt.Sprintf("%d")` prints and `strconv.Atoi` reads.
use laitos.Base.{
  ℕ, zero, suc, ◌+◌, ◌-◌, ◌*◌, ◌/◌, ◌%◌, ◌^◌, ◌≤◌, ◌<◌, ◌≡◌, ◌≢◌, refl, ap, ◌∙◌, ◌⊎◌, Bool, true,
  false, ◌&&◌, [], ◌∷◌, ◌++◌, Option, none, some, Bytes, arith, ltb, leb, ◌==◌, if◌then◌else◌, inl,
  inr,
}

pub data ℤ : Type 0 where
  pos negsuc : ℕ → ℤ

abbrev pub is_digit : ℕ → Bool
is_digit c = leb b'0' c && leb c b'9'

unfoldable pub all_digits : Bytes → Bool
all_digits [] = true
all_digits (c ∷ s) = is_digit c && all_digits s

-- The value of digits behind those that come to `n`.
unfoldable pub decimal : ℕ → Bytes → ℕ
decimal n [] = n
decimal n (c ∷ s) = decimal (n * 10 + (c - b'0')) s

-- The digits of a number; `fuel` bounds their count.
unfoldable pub digits_within : ℕ → ℕ → Bytes
digits_within zero n = []
digits_within (suc fuel) n =
    let before = digits_within fuel (n / 10) in
    if ltb n 10 then (n + b'0') ∷ [] else before ++ ((n % 10 + b'0') ∷ [])

unfoldable pub show_nat : ℕ → Bytes
unfolding digits_within
show_nat n = digits_within (suc n) n

unfoldable pub show_int : ℤ → Bytes
unfolding show_nat
show_int (pos n) = show_nat n
show_int (negsuc n) = b'-' ∷ show_nat (suc n)

abbrev pub max_int : ℕ
max_int = 2 ^ 63 - 1

-- The digits behind the sign; `none` is a syntax error.
unfoldable pub magnitude : Bytes → Option ℕ
unfolding all_digits decimal
magnitude [] = none
magnitude (c ∷ s) = if all_digits (c ∷ s) then some (decimal 0 (c ∷ s)) else none

-- The number beside the error, 0 on a syntax error and the nearest number out of range.
unfoldable pub signed : Bool → Option ℕ → ℤ
signed negative none = pos 0
signed true (some zero) = pos 0
signed true (some (suc n)) = if leb n max_int then negsuc n else negsuc max_int
signed false (some n) = if leb n max_int then pos n else pos max_int

-- `strconv.Atoi`, but for its error.
unfoldable pub atoi : Bytes → ℤ
unfolding signed magnitude
atoi [] = pos 0
atoi (c ∷ s) =
    if c == b'-'
    then signed true (magnitude s)
    else if c == b'+'
    then signed false (magnitude s)
    else signed false (magnitude (c ∷ s))

-- The numbers of 64 bits.
abbrev pub IsInt64 : ℤ → Type 0
IsInt64 (pos n) = n ≤ max_int
IsInt64 (negsuc n) = n ≤ max_int

decimal-append :
    (n : ℕ) (s : Bytes) (c : ℕ) → decimal n (s ++ (c ∷ [])) ≡ decimal n s * 10 + (c - b'0')
unfolding decimal
decimal-append n [] c = refl
decimal-append n (d ∷ s) c = decimal-append (n * 10 + (d - b'0')) s c

all_digits-append : (s : Bytes) (c : ℕ) → all_digits (s ++ (c ∷ [])) ≡ (all_digits s && is_digit c)
unfolding all_digits
all_digits-append [] c = ground arith
all_digits-append (d ∷ s) c = ground (arith, all_digits-append s c)

record Digits (n : ℕ) (s : Bytes) : Type 0 where
  value : decimal 0 s ≡ n
  digits : all_digits s ≡ true
  some_digit : s ≢ []

append-ne-nil : (s : Bytes) (c : ℕ) → s ++ (c ∷ []) ≢ []
append-ne-nil [] c e = cc
append-ne-nil (d ∷ s) c e = cc

if-Digits :
    (b : Bool) (n : ℕ) (s t : Bytes)
    → (b ≡ true → Digits n s)
    → (b ≡ false → Digits n t)
    → Digits n (if b then s else t)
if-Digits true n s t f g = f refl
if-Digits false n s t f g = g refl

digits_within-Digits : (fuel n : ℕ) → n < fuel → Digits n (digits_within fuel n)
unfolding digits_within
digits_within-Digits zero n h = absurd (omega arith)
digits_within-Digits (suc fuel) n h =
    if-Digits (ltb n 10) n _ _
      (λ y.
        unfold decimal all_digits in
        record { value = omega arith; digits = ground arith; some_digit = λ e. cc })
      (λ m.
        let big : 10 ≤ n = ground arith in
        let ih = digits_within-Digits fuel (n / 10) (omega arith) in
        record {
          value =
              omega
                (arith, decimal-append 0 (digits_within fuel (n / 10)) (n % 10 + b'0'), ih.value);
          digits =
              all_digits-append (digits_within fuel (n / 10)) (n % 10 + b'0')
              ∙ ground (arith, ih.digits);
          some_digit = append-ne-nil (digits_within fuel (n / 10)) (n % 10 + b'0');
        })

show_nat-Digits : (n : ℕ) → Digits n (show_nat n)
unfolding show_nat
show_nat-Digits n = digits_within-Digits (suc n) n (omega arith)

magnitude-Digits : (n : ℕ) (s : Bytes) → Digits n s → magnitude s ≡ some n
unfolding magnitude
magnitude-Digits n [] d = absurd (d.some_digit refl)
magnitude-Digits n (c ∷ s) d = rw (d.digits, d.value) refl

atoi-Digits : (n : ℕ) (s : Bytes) → Digits n s → atoi s ≡ signed false (some n)
unfolding atoi
atoi-Digits n [] d = absurd (d.some_digit refl)
atoi-Digits n (c ∷ s) d =
    let m = magnitude-Digits n (c ∷ s) d in
    let digit : (is_digit c && all_digits s) ≡ true = unfold all_digits in d.digits in
    ground (arith, m, digit)

-- A number of 64 bits that is printed is read back.
pub atoi-show_int : (i : ℤ) → IsInt64 i → atoi (show_int i) ≡ i
unfolding show_int
atoi-show_int (pos n) h =
    atoi-Digits n (show_nat n) (show_nat-Digits n) ∙ unfold signed in ground arith
atoi-show_int (negsuc n) h =
    let m = magnitude-Digits (suc n) (show_nat (suc n)) (show_nat-Digits (suc n)) in
    unfold atoi in ap (signed true) m ∙ unfold signed in ground arith

-- What is printed is digits, behind a sign or none.
pub show_int-sign :
    (i : ℤ) → (s : Bytes) × ((show_int i ≡ s) ⊎ (show_int i ≡ b'-' ∷ s)) × (all_digits s ≡ true)
unfolding show_int
show_int-sign (pos n) = (show_nat n, inl refl, (show_nat-Digits n).digits)
show_int-sign (negsuc n) = (show_nat (suc n), inr refl, (show_nat-Digits (suc n)).digits)
