-- ===== src/Text/Index.antt =====
-- `bytes.Index`: where a text of bytes first occurs within another, or a byte.
use laitos.Base.{
  ℕ, suc, ◌+◌, ◌≡◌, ap, ◌∙◌, true, false, [], ◌∷◌, ◌++◌, Option, none, some, Bytes, arith, ◌==◌,
  if◌then◌else◌, length, zero, take, drop, refl, Bool-cases, ==_iff, has_prefix, index_byte, ◌<◌,
  Option-cases, inl, inr,
}
use laitos.Text.Separators.{lacks}

-- One further, where there is an index.
abbrev pub further : Option ℕ → Option ℕ
further none = none
further (some i) = some (suc i)

unfoldable pub index_of : Bytes → Bytes → Option ℕ
unfolding has_prefix
index_of pattern [] = if has_prefix [] pattern then some 0 else none
index_of pattern (c ∷ s) =
    let rest = index_of pattern s in if has_prefix (c ∷ s) pattern then some 0 else further rest

-- A text that lacks the first byte of a pattern only puts off where the pattern is found.
pub index_of-lacks :
    (p : ℕ) (pattern s t : Bytes) (i : ℕ)
    → lacks p s ≡ true
    → index_of (p ∷ pattern) t ≡ some i
    → index_of (p ∷ pattern) (s ++ t) ≡ some (length s + i)
unfolding index_of lacks has_prefix
index_of-lacks p pattern [] t i h e = e ∙ ap some (omega arith)
index_of-lacks p pattern (c ∷ s) t i h e =
    let n : (c == p) ≡ false = ground arith in
    rw n (ap further (index_of-lacks p pattern s t i (ground arith) e) ∙ ap some (omega arith))

-- A byte is found within the text.
pub index_byte-lt : (s : Bytes) (b : ℕ) {i : ℕ} → index_byte s b ≡ some i → i < length s
unfolding index_byte
index_byte-lt [] b h = absurd (cc)
index_byte-lt (c ∷ s) b {i} h = elim (Option-cases (index_byte s b)) [
  | inl e ↦ ground (arith, e)
  | inr (j, e) ↦ ground (arith, e, index_byte-lt s b e)
]

-- Around its first occurrence of a byte, a string is what is in front of it, which lacks it, the
-- byte, and what is behind.
pub index_byte-split :
    (s : Bytes) (b i : ℕ)
    → index_byte s b ≡ some i
    → (s ≡ take i s ++ (b ∷ drop (i + 1) s)) × (length (take i s) ≡ i) × (lacks b (take i s) ≡ true)
unfolding index_byte lacks
index_byte-split [] b i h = absurd (cc)
index_byte-split (c ∷ s) b zero h = elim (Bool-cases (c == b)) [
  | inl y ↦ (ap (λ d. d ∷ s) ((==_iff c b).0 y), refl, refl)
  | inr n ↦ elim (Option-cases (index_byte s b)) [
    | inl e ↦ absurd (ground (arith, n, e, h))
    | inr (j, e) ↦ absurd (ground (arith, n, e, h))
  ]
]
index_byte-split (c ∷ s) b (suc i) h = elim (Bool-cases (c == b)) [
  | inl y ↦ absurd (ground (arith, y, h))
  | inr n ↦ elim (Option-cases (index_byte s b)) [
    | inl e ↦ absurd (ground (arith, n, e, h))
    | inr (j, e) ↦
        let same : j ≡ i = ground (arith, n, e, h) in
        let (whole, len, without) = index_byte-split s b i (e ∙ ap some same) in
        let next : suc (i + 1) ≡ suc i + 1 = omega arith in
        (
          ap (◌∷◌ c) whole ∙ ap (λ k. (c ∷ take i s) ++ (b ∷ drop k (c ∷ s))) next,
          omega (arith, len),
          ground (arith, n, without),
        )
  ]
]

pub drop-suc-length : (u : Bytes) (b : ℕ) (s : Bytes) → drop (suc (length u)) (u ++ (b ∷ s)) ≡ s
drop-suc-length [] b s = refl
drop-suc-length (c ∷ u) b s = drop-suc-length u b s

-- The first occurrence of a byte is behind what lacks it.
pub index_byte-lacks :
    (front : Bytes) (b : ℕ) (rest : Bytes)
    → lacks b front ≡ true
    → index_byte (front ++ (b ∷ rest)) b ≡ some (length front)
unfolding index_byte lacks
index_byte-lacks [] b rest h = ground arith
index_byte-lacks (c ∷ front) b rest h = ground (arith, index_byte-lacks front b rest (ground arith))
