-- ===== src/Toolbox/Patterns.antt =====
-- The two regular expressions of toolbox/cmd_processor.go, as functions of the text, and
-- `strconv.Atoi` on the digits that one of them finds. `int` is 64 bits wide.
use laitos.Base.{
  ℕ, zero, suc, ◌+◌, ◌-◌, ◌*◌, ◌^◌, Bool, true, false, not, ◌&&◌, ◌||◌, [], ◌∷◌, Option, none, some,
  Bytes, codes, leb, ◌==◌, if◌then◌else◌, has_prefix,
}

abbrev is_digit : ℕ → Bool
is_digit c = leb b'0' c && leb c b'9'

-- The longest prefix whose bytes pass a test, and what is behind it.
unfoldable pub span : (ℕ → Bool) → Bytes → Bytes × Bytes
span p [] = ([], [])
span p (c ∷ s) = let (a, b) = span p s in if p c then (c ∷ a, b) else ([], c ∷ s)

pub record PltMatch : Type 0 where
  pub position : Bytes
  pub length_digits : Bytes
  pub timeout : Bytes
  pub rest : Bytes

abbrev up_to_newline : Bytes → Bytes
up_to_newline s = (span (λ c. not (c == 10)) s).0

-- The last digit of a number and the digits before it.
split_last : ℕ → Bytes → Bytes × ℕ
split_last c [] = ([], c)
split_last c (d ∷ s) = let (front, last) = split_last d s in (c ∷ front, last)

-- A third number behind the second one, which starts with `d`: the digits that follow, or, where
-- there are none, the second number's own last digit, if it has two at least.
plt_third : Bytes → ℕ → Bytes → Bytes → Option PltMatch
unfolding span split_last
plt_third first d ds after =
    let third = span is_digit (span (λ c. not (is_digit c)) after).1 in
    elim third.0 [
      | [] ↦ elim ds [
        | [] ↦ none
        | e ∷ es ↦ some (record {
          position = first;
          length_digits = d ∷ (split_last e es).0;
          timeout = (split_last e es).1 ∷ [];
          rest = up_to_newline after;
        })
      ]
      | t ∷ ts ↦ some (record {
        position = first;
        length_digits = d ∷ ds;
        timeout = t ∷ ts;
        rest = up_to_newline third.1;
      })
    ]

-- `[^\d]*(\d+)[^\d]+(\d+)[^\d]*(\d+)(.*)`, greedy, with the one place where it backtracks. A
-- match that exists begins at the first byte.
unfoldable pub match_plt : Bytes → Option PltMatch
unfolding span plt_third
match_plt s =
    let first = span is_digit (span (λ c. not (is_digit c)) s).1 in
    let second = span is_digit (span (λ c. not (is_digit c)) first.1).1 in
    elim first.0 [
      | [] ↦ none
      | _ ∷ _ ↦ elim second.0 [ [] ↦ none | d ∷ ds ↦ plt_third first.0 d ds second.1 ]
    ]

decimal : ℕ → Bytes → ℕ
decimal n [] = n
decimal n (c ∷ s) = decimal (n * 10 + (c - b'0')) s

abbrev pub max_int : ℕ
max_int = 2 ^ 63 - 1

-- `strconv.Atoi` on a text of digits: out of range it is the largest number, with an error.
unfoldable pub atoi : Bytes → ℕ × Bool
unfolding decimal
atoi s = if leb (decimal 0 s) max_int then (decimal 0 s, true) else (max_int, false)

-- `[\d]{12}[\s]*\.0m` matches at the first byte.
report_here : ℕ → Bytes → Bool
report_here zero s =
    has_prefix (span (λ c. c == 9 || c == 10 || c == 12 || c == 13 || c == 32) s).1 (codes ".0m")
report_here (suc n) [] = false
report_here (suc n) (c ∷ s) = is_digit c && report_here n s

-- `RegexSubjectReportUsing2FA.MatchString`
unfoldable pub is_subject_report : Bytes → Bool
unfolding report_here span
is_subject_report [] = false
is_subject_report (c ∷ s) = report_here 12 (c ∷ s) || is_subject_report s
