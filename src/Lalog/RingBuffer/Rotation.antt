-- ===== src/Lalog/RingBuffer/Rotation.antt =====
-- The slots of the buffer from the oldest to the latest, and what the operations do to them.
use native.Mathlib.Nat.{mod-lt, mod-eq_of_lt, mod_self, suc-mod}
use mathlib.Core.List.{reverse-append, reverse-reverse}
use laitos.Base.{
  ℕ, zero, suc, ◌+◌, ◌-◌, ◌%◌, ◌≤◌, ◌<◌, ◌≡◌, refl, sym, ap, ◌∙◌, true, List, [], ◌∷◌, ◌++◌,
  reverse, append-nil, append_assoc, arith, Bytes, get_or, set, take, drop, length, dec_lt,
  length-drop,
}
use laitos.Lalog.RingBuffer.{RingBuffer, push, visit, walk, iterate_reverse, collect, get_all}

-- The elements that are not empty.
abbrev pub filled : List Bytes → List Bytes
filled [] = []
filled ([] ∷ elems) = filled elems
filled ((c ∷ s) ∷ elems) = (c ∷ s) ∷ filled elems

pub filled-append : (xs ys : List Bytes) → filled (xs ++ ys) ≡ filled xs ++ filled ys
filled-append [] ys = refl
filled-append ([] ∷ xs) ys = filled-append xs ys
filled-append ((c ∷ s) ∷ xs) ys = ap (◌∷◌ (c ∷ s)) (filled-append xs ys)

-- The elements from the index `low` on, `n` of them.
abbrev part : ℕ → ℕ → List Bytes → List Bytes
part low n buf = take n (drop low buf)

get_or-drop : (buf : List Bytes) (low n : ℕ) → get_or buf (low + n) [] ≡ get_or (drop low buf) n []
get_or-drop buf zero n = let e : 0 + n ≡ n = omega arith in ap (λ i. get_or buf i []) e
get_or-drop [] (suc low) n = refl
get_or-drop (x ∷ buf) (suc low) n =
    let e : suc low + n ≡ suc (low + n) = omega arith in
    ap (λ i. get_or (x ∷ buf) i []) e ∙ get_or-drop buf low n

take-suc :
    (buf : List Bytes) (n : ℕ)
    → n < length buf
    → take (suc n) buf ≡ take n buf ++ (get_or buf n [] ∷ [])
take-suc [] n h = absurd (omega arith)
take-suc (x ∷ buf) zero h = refl
take-suc (x ∷ buf) (suc n) h = ap (◌∷◌ x) (take-suc buf n (omega arith))

part-suc :
    (buf : List Bytes) (low n : ℕ)
    → low + n < length buf
    → part low (suc n) buf ≡ part low n buf ++ (get_or buf (low + n) [] ∷ [])
part-suc buf low n h =
    take-suc (drop low buf) n (omega (arith, length-drop low buf))
    ∙ ap (λ e. part low n buf ++ (e ∷ [])) (sym (get_or-drop buf low n))

visit-collect :
    (elems : List Bytes) (elem : Bytes)
    → visit collect elems elem ≡ (elems ++ filled (elem ∷ []), true)
visit-collect elems [] = ap (λ es. (es, true)) (sym (append-nil elems))
visit-collect elems (c ∷ s) = refl

filled-one : (elem : Bytes) → reverse (filled (elem ∷ [])) ≡ filled (elem ∷ [])
filled-one [] = refl
filled-one (c ∷ s) = refl

walk-collect :
    (buf : List Bytes) (low n : ℕ) (elems : List Bytes)
    → low + n ≤ length buf
    → walk collect buf low n elems ≡ (elems ++ reverse (filled (part low n buf)), true)
unfolding walk
walk-collect buf low zero elems h = ap (λ es. (es, true)) (sym (append-nil elems))
walk-collect buf low (suc n) elems h =
    let elem = get_or buf (low + n) [] in
    let rest = filled (part low n buf) in
    rw (visit-collect elems elem) (
      walk-collect buf low n (elems ++ filled (elem ∷ [])) (omega arith)
      ∙ ap (λ es. (es, true))
          (append_assoc elems (filled (elem ∷ [])) (reverse rest)
            ∙ ap (λ es. elems ++ es)
                (sym (
                  ap reverse (
                    ap filled (part-suc buf low n (omega arith))
                    ∙ filled-append (part low n buf) (elem ∷ []))
                  ∙ reverse-append rest (filled (elem ∷ []))
                  ∙ ap (λ es. es ++ reverse rest) (filled-one elem)))))

take-all : (xs : List Bytes) (n : ℕ) → length xs ≡ n → take n xs ≡ xs
take-all [] zero h = refl
take-all [] (suc n) h = refl
take-all (x ∷ xs) zero h = absurd (omega arith)
take-all (x ∷ xs) (suc n) h = ap (◌∷◌ x) (take-all xs n (omega arith))

-- The slots from the oldest to the latest, where `k` slots end with the latest.
abbrev pub rotated : ℕ → List Bytes → List Bytes
rotated k buf = drop k buf ++ take k buf

abbrev pub content : RingBuffer → List Bytes
content r = rotated (suc (r.counter % r.size)) r.buf

-- The slots are as many as the size says, and there is one.
pub record IsSized (r : RingBuffer) : Type 0 where
  pub slots : length r.buf ≡ r.size
  pub positive : 0 < r.size

pub get_all-content : (r : RingBuffer) → IsSized r → get_all r ≡ filled (content r)
unfolding get_all iterate_reverse
get_all-content r s =
    let k = suc (r.counter % r.size) in
    let inside : k ≤ r.size = omega (arith, mod-lt r.counter s.positive) in
    let earlier = drop k r.buf in
    let latest = reverse (filled (take k r.buf)) in
    let all : take (r.size - k) earlier ≡ earlier =
      take-all earlier (r.size - k) (omega (arith, length-drop k r.buf)) in
    rw (walk-collect r.buf 0 k [] (omega arith)) (
      rw (walk-collect r.buf k (r.size - k) latest (omega arith)) (
        ap (λ es. reverse (latest ++ reverse (filled es))) all
        ∙ reverse-append latest (reverse (filled earlier))
        ∙ ap (λ es. es ++ reverse latest) (reverse-reverse (filled earlier))
        ∙ ap (λ es. filled earlier ++ es) (reverse-reverse (filled (take k r.buf)))
        ∙ sym (filled-append earlier (take k r.buf))))

drop-set : (buf : List Bytes) (k : ℕ) (e : Bytes) → drop (suc k) (set buf k e) ≡ drop (suc k) buf
drop-set [] k e = refl
drop-set (x ∷ buf) zero e = refl
drop-set (x ∷ buf) (suc k) e = drop-set buf k e

take-set :
    (buf : List Bytes) (k : ℕ) (e : Bytes)
    → k < length buf
    → take (suc k) (set buf k e) ≡ take k buf ++ (e ∷ [])
take-set [] k e h = absurd (omega arith)
take-set (x ∷ buf) zero e h = refl
take-set (x ∷ buf) (suc k) e h = ap (◌∷◌ x) (take-set buf k e (omega arith))

drop_one-append :
    (buf ys : List Bytes) (k : ℕ)
    → k < length buf
    → drop 1 (drop k buf ++ ys) ≡ drop (suc k) buf ++ ys
drop_one-append [] ys k h = absurd (omega arith)
drop_one-append (x ∷ buf) ys zero h = refl
drop_one-append (x ∷ buf) ys (suc k) h = drop_one-append buf ys k (omega arith)

rotated-set :
    (buf : List Bytes) (k : ℕ) (e : Bytes)
    → k < length buf
    → rotated (suc k) (set buf k e) ≡ drop 1 (rotated k buf) ++ (e ∷ [])
rotated-set buf k e h =
    ap (λ es. es ++ take (suc k) (set buf k e)) (drop-set buf k e)
    ∙ ap (λ es. drop (suc k) buf ++ es) (take-set buf k e h)
    ∙ sym (append_assoc (drop (suc k) buf) (take k buf) (e ∷ []))
    ∙ ap (λ es. es ++ (e ∷ [])) (sym (drop_one-append buf (take k buf) k h))

drop-all : (xs : List Bytes) (n : ℕ) → length xs ≡ n → drop n xs ≡ []
drop-all [] zero h = refl
drop-all [] (suc n) h = refl
drop-all (x ∷ xs) zero h = absurd (omega arith)
drop-all (x ∷ xs) (suc n) h = drop-all xs n (omega arith)

rotated-full : (buf : List Bytes) (k : ℕ) → length buf ≡ k → rotated k buf ≡ rotated 0 buf
rotated-full buf k h =
    ap (λ es. es ++ take k buf) (drop-all buf k h) ∙ take-all buf k h ∙ sym (append-nil buf)

-- Writing the latest slot: the oldest goes, and the element comes last.
pub content-push :
    (e : Bytes) (r : RingBuffer) → IsSized r → content (push e r) ≡ drop 1 (content r) ++ (e ∷ [])
unfolding push
content-push e r s =
    let k = suc (r.counter % r.size) in
    let one : r.counter + 1 ≡ suc r.counter = omega arith in
    let next : (r.counter + 1) % r.size ≡ k % r.size =
      ap (λ i. i % r.size) one ∙ suc-mod r.counter r.size in
    let inside : k ≤ r.size = omega (arith, mod-lt r.counter s.positive) in
    elim (dec_lt k r.size) [
      | yes l ↦
          let same : (r.counter + 1) % r.size ≡ k = next ∙ mod-eq_of_lt l in
          rw same (rotated-set r.buf k e (omega arith))
      | no n ↦
          let full : k ≡ r.size = omega arith in
          let same : (r.counter + 1) % r.size ≡ 0 =
            next ∙ ap (λ i. i % r.size) full ∙ mod_self r.size in
          rw same (
            rotated-set r.buf 0 e (omega arith)
            ∙ ap (λ es. drop 1 es ++ (e ∷ [])) (sym (rotated-full r.buf k (omega arith))))
    ]
