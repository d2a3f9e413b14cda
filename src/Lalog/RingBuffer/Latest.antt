-- ===== src/Lalog/RingBuffer/Latest.antt =====
-- What `GetAll` returns: the elements pushed last.
use native.Mathlib.Nat.{zero-mod}
use laitos.Base.{
  ℕ, zero, suc, ◌+◌, ◌-◌, ◌%◌, ◌<◌, ◌≡◌, ◌≢◌, refl, sym, ap, ◌∙◌, List, [], ◌∷◌, ◌++◌, append-nil,
  append_assoc, some, All, arith, Bytes, replicate, take, drop, length, length-set, length-append,
  length-replicate, length-take, length-drop,
}
use laitos.Lalog.RingBuffer.{RingBuffer, push, new_ring_buffer, get_all}
use laitos.Lalog.RingBuffer.Rotation.{
  filled, rotated, content, IsSized, get_all-content, content-push,
}

push-IsSized : (e : Bytes) (r : RingBuffer) → IsSized r → IsSized (push e r)
unfolding push
push-IsSized e r s = record {
  slots = length-set r.buf ((r.counter + 1) % r.size) e ∙ s.slots;
  positive = s.positive;
}

-- The elements pushed one by one.
abbrev pub push_all : List Bytes → RingBuffer → RingBuffer
push_all [] r = r
push_all (e ∷ es) r = push_all es (push e r)

drop_one_first :
    (xs : List Bytes) (ys : List Bytes) (n : ℕ)
    → 0 < length xs
    → drop n (drop 1 xs ++ ys) ≡ drop (suc n) (xs ++ ys)
drop_one_first [] ys n h = absurd (omega arith)
drop_one_first (x ∷ xs) ys n h = refl

content-positive : (r : RingBuffer) → IsSized r → 0 < length (content r)
content-positive r s =
    let k = suc (r.counter % r.size) in
    omega (
      arith,
      length-append (drop k r.buf) (take k r.buf),
      length-drop k r.buf,
      length-take k r.buf,
      s.slots,
      s.positive,
    )

push_all-IsSized : (es : List Bytes) (r : RingBuffer) → IsSized r → IsSized (push_all es r)
push_all-IsSized [] r s = s
push_all-IsSized (e ∷ es) r s = push_all-IsSized es (push e r) (push-IsSized e r s)

content-push_all :
    (es : List Bytes) (r : RingBuffer)
    → IsSized r
    → content (push_all es r) ≡ drop (length es) (content r ++ es)
content-push_all [] r s = sym (append-nil (content r))
content-push_all (e ∷ es) r s =
    content-push_all es (push e r) (push-IsSized e r s)
    ∙ ap (λ xs. drop (length es) (xs ++ es)) (content-push e r s)
    ∙ ap (drop (length es)) (append_assoc (drop 1 (content r)) (e ∷ []) es)
    ∙ drop_one_first (content r) (e ∷ es) (length es) (content-positive r s)

filled-id : (es : List Bytes) → All (λ e. e ≢ []) es → filled es ≡ es
filled-id [] h = refl
filled-id ([] ∷ es) (n, h) = absurd (n refl)
filled-id ((c ∷ s) ∷ es) (n, h) = ap (◌∷◌ (c ∷ s)) (filled-id es h)

filled-drop : (n : ℕ) (es : List Bytes) → All (λ e. e ≢ []) es → filled (drop n es) ≡ drop n es
filled-drop zero es h = filled-id es h
filled-drop (suc n) [] h = refl
filled-drop (suc n) (e ∷ es) (_, h) = filled-drop n es h

-- Empty slots are passed over.
filled-behind_empty :
    (m n : ℕ) (es : List Bytes)
    → All (λ e. e ≢ []) es
    → filled (drop n (replicate m [] ++ es)) ≡ drop (n - m) es
filled-behind_empty zero n es h =
    let e : n - 0 ≡ n = omega arith in filled-drop n es h ∙ ap (λ i. drop i es) (sym e)
filled-behind_empty (suc m) zero es h =
    let e : 0 - m ≡ 0 - suc m = omega arith in
    filled-behind_empty m zero es h ∙ ap (λ i. drop i es) e
filled-behind_empty (suc m) (suc n) es h =
    let e : n - m ≡ suc n - suc m = omega arith in
    filled-behind_empty m n es h ∙ ap (λ i. drop i es) e

replicate-append_one : (n : ℕ) (a : Bytes) → replicate n a ++ (a ∷ []) ≡ a ∷ replicate n a
replicate-append_one zero a = refl
replicate-append_one (suc n) a = ap (◌∷◌ a) (replicate-append_one n a)

abbrev fresh : ℕ → RingBuffer
fresh size = record { size = size; counter = 0; buf = replicate size [] }

content-fresh : (size : ℕ) → 0 < size → content (fresh size) ≡ replicate size []
content-fresh zero h = absurd (omega arith)
content-fresh (suc n) h =
    ap (λ k. rotated (suc k) (replicate (suc n) [])) (zero-mod (suc n)) ∙ replicate-append_one n []

fresh-get_all :
    (size : ℕ) (es : List Bytes)
    → 0 < size
    → All (λ e. e ≢ []) es
    → get_all (push_all es (fresh size)) ≡ drop (length es - size) es
fresh-get_all size es p h =
    let sized : IsSized (fresh size) = record { slots = length-replicate size []; positive = p } in
    get_all-content (push_all es (fresh size)) (push_all-IsSized es (fresh size) sized)
    ∙ ap filled (content-push_all es (fresh size) sized)
    ∙ ap (λ xs. filled (drop (length es) (xs ++ es))) (content-fresh size p)
    ∙ filled-behind_empty size (length es) es h

-- Where elements, none of them empty, were pushed into a new buffer, it holds those pushed last,
-- as many as its size, from the oldest to the latest, or all of them while they are fewer.
pub get_all-push_all :
    (size : ℕ) (es : List Bytes) (r : RingBuffer)
    → new_ring_buffer size ≡ some r
    → All (λ e. e ≢ []) es
    → get_all (push_all es r) ≡ drop (length es - size) es
unfolding new_ring_buffer
get_all-push_all zero es r e h = absurd (cc)
get_all-push_all (suc n) es r e h =
    let same : fresh (suc n) ≡ r = ground arith in
    ap (λ b. get_all (push_all es b)) (sym same) ∙ fresh-get_all (suc n) es (omega arith) h
