-- ===== src/Text/Lines.antt =====
-- `strings.Split(s, sep)` for a separator of one byte, `strings.Join`, and
-- `strings.Replace(s, old, new, -1)`.
use laitos.Base.{
  ℕ, zero, suc, ◌-◌, ◌≡◌, refl, sym, ap, ◌∙◌, List, [], ◌∷◌, ◌++◌, Bytes, ◌==◌, if◌then◌else◌,
  length, has_prefix, Bool-cases, inl, inr, ◌≢◌, ==_iff,
}
use laitos.Text.Utf8.{Char, chars}

-- The text up to the first separator, and the pieces behind it.
abbrev cons_first : ℕ → List Bytes → List Bytes
cons_first c [] = (c ∷ []) ∷ []
cons_first c (piece ∷ pieces) = (c ∷ piece) ∷ pieces

unfoldable pub split : ℕ → Bytes → List Bytes
split sep [] = [] ∷ []
split sep (c ∷ s) = let rest = split sep s in if c == sep then [] ∷ rest else cons_first c rest

unfoldable pub join : Bytes → List Bytes → Bytes
join sep [] = []
join sep (p ∷ []) = p
join sep (p ∷ q ∷ ps) = p ++ (sep ++ join sep (q ∷ ps))

-- Replaces a text of at least one byte; `skip` bytes belong to the occurrence before.
unfoldable pub replace_from : Bytes → Bytes → ℕ → Bytes → Bytes
replace_from old new zero [] = []
replace_from old new zero (c ∷ s) =
    let here = new ++ replace_from old new (length old - 1) s in
    let later = c ∷ replace_from old new 0 s in if has_prefix (c ∷ s) old then here else later
replace_from old new (suc skip) [] = []
replace_from old new (suc skip) (c ∷ s) = replace_from old new skip s

-- An empty text is replaced in front of every character, and at the end.
replace_empty : Bytes → List Char → Bytes
replace_empty new [] = new
replace_empty new (c ∷ cs) = new ++ (c.bytes ++ replace_empty new cs)

unfoldable pub replace_all : Bytes → Bytes → Bytes → Bytes
unfolding replace_from replace_empty
replace_all [] new s = replace_empty new (chars s)
replace_all (o ∷ old) new s = replace_from (o ∷ old) new 0 s

join-cons_first :
    (sep c : ℕ) (ps : List Bytes) → join (sep ∷ []) (cons_first c ps) ≡ c ∷ join (sep ∷ []) ps
unfolding join
join-cons_first sep c [] = refl
join-cons_first sep c (p ∷ []) = refl
join-cons_first sep c (p ∷ q ∷ ps) = refl

cons_first-ne-nil : (c : ℕ) (ps : List Bytes) → cons_first c ps ≢ []
cons_first-ne-nil c [] e = cc
cons_first-ne-nil c (p ∷ ps) e = cc

split-ne-nil : (sep : ℕ) (s : Bytes) → split sep s ≢ []
unfolding split
split-ne-nil sep [] e = cc
split-ne-nil sep (c ∷ s) e = elim (Bool-cases (c == sep)) [
  | inl y ↦ let f : ◌≡◌ {A = List Bytes} ([] ∷ split sep s) [] = rw y at e in cc
  | inr n ↦ cons_first-ne-nil c (split sep s) (rw n at e)
]

join-nil_cons :
    (sep : ℕ) (ps : List Bytes) → ps ≢ [] → join (sep ∷ []) ([] ∷ ps) ≡ sep ∷ join (sep ∷ []) ps
unfolding join
join-nil_cons sep [] h = absurd (h refl)
join-nil_cons sep (p ∷ ps) h = refl

-- Joining what was split gives the text back.
pub join-split : (sep : ℕ) (s : Bytes) → join (sep ∷ []) (split sep s) ≡ s
unfolding split
join-split sep [] = unfold join in refl
join-split sep (c ∷ s) = elim (Bool-cases (c == sep)) [
  | inl y ↦ rw y (
      join-nil_cons sep (split sep s) (split-ne-nil sep s)
      ∙ ap (◌∷◌ sep) (join-split sep s)
      ∙ ap (λ b. b ∷ s) (sym ((==_iff c sep).0 y)))
  | inr n ↦ rw n (join-cons_first sep c (split sep s) ∙ ap (◌∷◌ c) (join-split sep s))
]
