-- ===== src/Messages/Latest/Order.antt =====
-- The latest reports come from latest to oldest.
use mathlib.Core.List.{reverse-append, reverse-reverse}
use laitos.Base.{
  ℕ, zero, suc, ◌+◌, ◌-◌, ◌*◌, ◌/◌, ◌≤◌, ◌≡◌, refl, sym, ap, ◌∙◌, false, List, [], ◌∷◌, ◌++◌,
  reverse, append_assoc, Option, none, some, Bytes, ◌>>=◌, arith, ltb, length, take, drop,
  get_elem?, set, length-append, length-reverse, length-take, length-drop, take-append-drop,
  get_elem?-append, Bool-cases, inl, inr,
}
use laitos.Base.Dict.{lookup}
use laitos.Messages.Store.{SubjectReport, MessageProcessor, or_none}
use laitos.Messages.Latest.{
  swap_at, reverse_from, latest_of, latest_reports, get_latest_reports_from_subject,
}

module _ {ℓ} {A : Type ℓ} where
  set-append :
      (xs ys : List A) (i : ℕ) (v : A) → set (xs ++ ys) (length xs + i) v ≡ xs ++ set ys i v
  set-append [] ys i v = ap (λ k. set ys k v) (omega arith)
  set-append (x ∷ xs) ys i v =
      let e : suc (length xs) + i ≡ suc (length xs + i) = omega arith in
      ap (λ k. set (x ∷ (xs ++ ys)) k v) e ∙ ap (◌∷◌ x) (set-append xs ys i v)

  -- The elements around a middle change places.
  swap_at-around :
      (u m w : List A) (a b : A) (i j : ℕ)
      → i ≡ length u + 0
      → j ≡ length u + suc (length m + 0)
      → swap_at i j (u ++ (a ∷ (m ++ (b ∷ w)))) ≡ some (u ++ (b ∷ (m ++ (a ∷ w))))
  unfolding swap_at
  swap_at-around u m w a b i j e f =
      let before = u ++ (a ∷ (m ++ (b ∷ w))) in
      let first : get_elem? before i ≡ some a =
        ap (get_elem? before) e ∙ get_elem?-append u (a ∷ (m ++ (b ∷ w))) 0 in
      let second : get_elem? before j ≡ some b =
        ap (get_elem? before) f
        ∙ get_elem?-append u (a ∷ (m ++ (b ∷ w))) (suc (length m + 0))
        ∙ get_elem?-append m (b ∷ w) 0 in
      let once : set before i b ≡ u ++ (b ∷ (m ++ (b ∷ w))) =
        ap (λ k. set before k b) e ∙ set-append u (a ∷ (m ++ (b ∷ w))) 0 b in
      let twice : set (u ++ (b ∷ (m ++ (b ∷ w)))) j a ≡ u ++ (b ∷ (m ++ (a ∷ w))) =
        ap (λ k. set (u ++ (b ∷ (m ++ (b ∷ w)))) k a) f
        ∙ set-append u (b ∷ (m ++ (b ∷ w))) (suc (length m + 0)) a
        ∙ ap (λ s. u ++ (b ∷ s)) (set-append m (b ∷ w) 0 a) in
      rw (first, second, once, twice) refl

  -- The loop on the ends of a list around a middle.
  reverse_from-around :
      (r m v : List A)
      → length r ≡ length v
      → reverse_from (length r) (reverse r ++ (m ++ v)) ≡ some (reverse v ++ (m ++ r))
  unfolding reverse_from
  reverse_from-around [] m [] e = refl
  reverse_from-around [] m (b ∷ v) e = absurd (omega (arith, e))
  reverse_from-around (a ∷ r) m [] e = absurd (omega (arith, e))
  reverse_from-around (a ∷ r) m (b ∷ v) e =
      let inner = a ∷ (m ++ (b ∷ v)) in
      let spelled : reverse (a ∷ r) ++ (m ++ (b ∷ v)) ≡ reverse r ++ inner =
        ap (λ s. s ++ (m ++ (b ∷ v))) (reverse-append (a ∷ []) r)
        ∙ append_assoc (reverse r) (a ∷ []) (m ++ (b ∷ v)) in
      let place : length r ≡ length (reverse r) + 0 = omega (arith, length-reverse r) in
      let opposite : length (reverse r ++ inner) - 1 - length r
          ≡ length (reverse r) + suc (length m + 0) =
        omega
          (arith, e, length-append (reverse r) inner, length-append m (b ∷ v), length-reverse r) in
      let regrouped : reverse r ++ (b ∷ (m ++ (a ∷ v)))
          ≡ reverse r ++ ((b ∷ (m ++ (a ∷ []))) ++ v) =
        ap (λ s. reverse r ++ (b ∷ s)) (sym (append_assoc m (a ∷ []) v)) in
      let turned : reverse v ++ ((b ∷ (m ++ (a ∷ []))) ++ r) ≡ reverse (b ∷ v) ++ (m ++ (a ∷ r)) =
        ap (λ s. reverse v ++ (b ∷ s)) (append_assoc m (a ∷ []) r)
        ∙ sym (append_assoc (reverse v) (b ∷ []) (m ++ (a ∷ r)))
        ∙ ap (λ s. s ++ (m ++ (a ∷ r))) (sym (reverse-append (b ∷ []) v)) in
      ap (reverse_from (suc (length r))) spelled
      ∙ ap (λ o. o >>= λ swapped. reverse_from (length r) swapped)
          (swap_at-around (reverse r) m v a b (length r) _ place opposite)
      ∙ ap (reverse_from (length r)) regrouped
      ∙ reverse_from-around r (b ∷ (m ++ (a ∷ []))) v (omega (arith, e))
      ∙ ap some turned

  short-reverse : (m : List A) → length m ≤ 1 → reverse m ≡ m
  short-reverse [] h = refl
  short-reverse (x ∷ []) h = refl
  short-reverse (x ∷ y ∷ m) h = absurd (omega arith)

  -- The loop over half of a list reverses it.
  reverse_from-half : (xs : List A) → reverse_from (length xs / 2) xs ≡ some (reverse xs)
  reverse_from-half xs =
      let n = length xs / 2 in
      let u = take n xs in
      let rest = drop n xs in
      let m = take (length xs - 2 * n) rest in
      let v = drop (length xs - 2 * n) rest in
      let parts : u ++ (m ++ v) ≡ xs =
        ap (λ s. u ++ s) (take-append-drop (length xs - 2 * n) rest) ∙ take-append-drop n xs in
      let size_u : length (reverse u) ≡ n = omega (arith, length-reverse u, length-take n xs) in
      let sizes : length (reverse u) ≡ length v =
        omega (arith, size_u, length-drop n xs, length-drop (length xs - 2 * n) rest) in
      let middle : length m ≤ 1 = omega (arith, length-take (length xs - 2 * n) rest) in
      let start : reverse (reverse u) ++ (m ++ v) ≡ xs =
        ap (λ s. s ++ (m ++ v)) (reverse-reverse u) ∙ parts in
      let turned : reverse v ++ (m ++ reverse u) ≡ reverse xs =
        ap (λ s. reverse v ++ (s ++ reverse u)) (sym (short-reverse m middle))
        ∙ sym (append_assoc (reverse v) (reverse m) (reverse u))
        ∙ ap (λ s. s ++ reverse u) (sym (reverse-append m v))
        ∙ sym (reverse-append u (m ++ v))
        ∙ ap reverse parts in
      ap (λ k. reverse_from k xs) (sym size_u)
      ∙ ap (reverse_from (length (reverse u))) (sym start)
      ∙ reverse_from-around (reverse u) m v sizes
      ∙ ap some turned

-- The last `n` of a list, latest first.
abbrev pub newest : ℕ → List SubjectReport → List SubjectReport
newest n reports = reverse (drop (length reports - n) reports)

latest_of-drop :
    (max : ℕ) (reports : List SubjectReport)
    → latest_of max reports ≡ drop (length reports - max) reports
latest_of-drop max reports = elim (Bool-cases (ltb max (length reports))) [
  | inl y ↦ rw y refl
  | inr n ↦
      let all_of : length reports - max ≡ 0 = ground (arith, n) in
      rw n (ap (λ k. drop k reports) (sym all_of))
]

latest_reports-newest :
    (max : ℕ) (o : Option (List SubjectReport))
    → latest_reports max o ≡ some (newest max (or_none o))
latest_reports-newest max none =
    let none_left : 0 - max ≡ 0 = omega arith in
    ap (λ k. some (reverse (drop {A = SubjectReport} k []))) (sym none_left)
latest_reports-newest max (some reports) =
    reverse_from-half (latest_of max reports)
    ∙ ap (λ rs. some (reverse rs)) (latest_of-drop max reports)

length-zero : (rs : List SubjectReport) → length rs ≡ 0 → rs ≡ []
length-zero [] e = refl
length-zero (r ∷ rs) e = absurd (omega arith)

drop-all : (reports : List SubjectReport) → drop (length reports - 0) reports ≡ []
drop-all reports =
    length-zero (drop (length reports - 0) reports)
      (omega (arith, length-drop (length reports - 0) reports))

-- The query of a subject's latest reports never panics, and returns the last reports that are
-- stored for its host name in lower case, as many as the limit, from latest to oldest; none for a
-- host that is not known.
pub get_latest_reports_from_subject-newest :
    (to_lower : Bytes → Bytes) (host_name : Bytes) (max_limit : ℕ) (proc : MessageProcessor)
    → get_latest_reports_from_subject to_lower host_name max_limit proc
      ≡ some (newest max_limit (or_none (lookup (to_lower host_name) proc.subject_reports)))
unfolding get_latest_reports_from_subject
get_latest_reports_from_subject-newest to_lower host_name zero proc =
    let reports = or_none (lookup (to_lower host_name) proc.subject_reports) in
    sym (ap (λ rs. some (reverse rs)) (drop-all reports))
get_latest_reports_from_subject-newest to_lower host_name (suc n) proc =
    let positive : ltb (suc n) 1 ≡ false = ground arith in
    rw positive (latest_reports-newest (suc n) (lookup (to_lower host_name) proc.subject_reports))
