-- ===== src/Text/Separators.antt =====
-- Texts that lack a byte: splitting what was joined, and replacing one byte by another and back.
use laitos.Base.{
  ℕ, ◌≡◌, ◌≢◌, refl, ap, ◌∙◌, Bool, true, false, not, ◌&&◌, List, [], ◌∷◌, ◌++◌, Bytes, arith, ◌==◌,
  if◌then◌else◌, has_prefix, inl, inr, All,
}
use laitos.Text.Lines.{split, join, replace_from, replace_all}
use laitos.Text.Numbers.{ℤ, all_digits, show_int, show_int-sign, is_digit}

unfoldable pub lacks : ℕ → Bytes → Bool
lacks b [] = true
lacks b (c ∷ s) = not (c == b) && lacks b s

pub split-lacking :
    (sep : ℕ) (p s : Bytes) → lacks sep p ≡ true → split sep (p ++ (sep ∷ s)) ≡ p ∷ split sep s
unfolding split lacks
split-lacking sep [] s h = ground arith
split-lacking sep (c ∷ p) s h =
    let n : (c == sep) ≡ false = ground arith in
    rw n (rw (split-lacking sep p s (ground arith)) refl)

pub split-last : (sep : ℕ) (p : Bytes) → lacks sep p ≡ true → split sep p ≡ p ∷ []
unfolding split lacks
split-last sep [] h = refl
split-last sep (c ∷ p) h =
    let n : (c == sep) ≡ false = ground arith in rw n (rw (split-last sep p (ground arith)) refl)

-- Splitting what was joined gives the pieces back, where none of them has the separator.
pub split-join :
    (sep : ℕ) (p : Bytes) (ps : List Bytes)
    → All (λ q. lacks sep q ≡ true) (p ∷ ps)
    → split sep (join (sep ∷ []) (p ∷ ps)) ≡ p ∷ ps
unfolding join
split-join sep p [] (h, _) = split-last sep p h
split-join sep p (q ∷ ps) (h, hs) =
    split-lacking sep p (join (sep ∷ []) (q ∷ ps)) h ∙ ap (◌∷◌ p) (split-join sep q ps hs)

-- One byte for another.
abbrev pub swap : ℕ → ℕ → Bytes → Bytes
swap a b [] = []
swap a b (c ∷ s) = (if c == a then b else c) ∷ swap a b s

pub replace_all-swap : (a b : ℕ) (s : Bytes) → replace_all (a ∷ []) (b ∷ []) s ≡ swap a b s
unfolding replace_all replace_from has_prefix
replace_all-swap a b [] = refl
replace_all-swap a b (c ∷ s) = ground (arith, replace_all-swap a b s)

pub swap-swap : (a b : ℕ) (s : Bytes) → lacks b s ≡ true → swap b a (swap a b s) ≡ s
unfolding lacks
swap-swap a b [] h = refl
swap-swap a b (c ∷ s) h = ground (arith, swap-swap a b s (ground arith))

pub lacks-swap :
    (sep a b : ℕ) (s : Bytes) → b ≢ sep → lacks sep s ≡ true → lacks sep (swap a b s) ≡ true
unfolding lacks
lacks-swap sep a b [] n h = refl
lacks-swap sep a b (c ∷ s) n h = ground (arith, lacks-swap sep a b s n (ground arith))

lacks-digits : (b : ℕ) (s : Bytes) → is_digit b ≡ false → all_digits s ≡ true → lacks b s ≡ true
unfolding lacks all_digits
lacks-digits b [] n h = refl
lacks-digits b (c ∷ s) n h = ground (arith, lacks-digits b s n (ground arith))

pub lacks-show_int : (b : ℕ) (i : ℤ) → is_digit b ≡ false → b ≢ b'-' → lacks b (show_int i) ≡ true
unfolding lacks
lacks-show_int b i n m =
    let (s, e, d) = show_int-sign i in
    let tail = lacks-digits b s n d in
    elim e [ inl e' ↦ ap (lacks b) e' ∙ tail | inr e' ↦ ap (lacks b) e' ∙ ground arith ]
