-- ===== src/Dns/Blacklist/Ancestors.antt =====
-- Which names the black list blocks: the ones in it, and those below them.
use laitos.Base.{
  ℕ, zero, suc, ◌+◌, ◌-◌, ◌≤◌, ◌<◌, ◌≡◌, ◌⊎◌, ◌↔◌, refl, ap, ◌∙◌, Bool, true, false, ◌||◌, List,
  Option, none, some, Bytes, arith, ltb, ◌==◌, length, drop, length-drop, index_byte, Bool-cases,
  inl, inr, take, length-append, ◌++◌, ◌∷◌,
}
use laitos.Text.Index.{index_byte-lt, index_byte-split, index_byte-lacks, drop-suc-length}
use laitos.Text.Separators.{lacks}
use laitos.Text.Trim.{trim_space}
use laitos.Dns.Blacklist.{
  in_set, parent, behind, with_parent, parent_candidates, any_in_set, is_in_blacklist,
}

-- The first name is a label that is not empty, a full stop, and the second name, which is not
-- empty either.
pub record IsParent (name shorter : Bytes) : Type 0 where
  pub label : Bytes
  pub labelled : name ≡ label ++ (b'.' ∷ shorter)
  pub one_label : lacks b'.' label ≡ true
  pub some_label : 0 < length label
  pub some_rest : 0 < length shorter

-- The second name is what is left of the first without its first label, or its first labels.
pub data Ancestor : Bytes → Bytes → Type 0 where
  parent_is : (name shorter : Bytes) → IsParent name shorter → Ancestor name shorter
  further :
      (name shorter ancestor : Bytes)
      → IsParent name shorter
      → Ancestor shorter ancestor
      → Ancestor name ancestor

-- An ancestor of four bytes or more that the list has.
abbrev pub HasListedAncestor : Bytes → List Bytes → Type 0
HasListedAncestor name names =
    (ancestor : Bytes) × Ancestor name ancestor
    × (4 ≤ length ancestor)
    × (in_set ancestor names ≡ true)

or-cases : (a b : Bool) → (a || b) ≡ true → (a ≡ true) ⊎ (b ≡ true)
or-cases true b h = inl refl
or-cases false b h = inr h

or-right : (a b : Bool) → b ≡ true → (a || b) ≡ true
or-right true b h = refl
or-right false b h = h

behind-IsParent :
    (name shorter : Bytes) (o : Option ℕ)
    → index_byte name b'.' ≡ o
    → behind name o ≡ some shorter
    → IsParent name shorter
behind-IsParent name shorter none f e = absurd (cc)
behind-IsParent name shorter (some i) f e = elim (Bool-cases (ltb i 1 || i == length name - 1)) [
  | inl y ↦ absurd (ground (arith, y, e))
  | inr n ↦
      let same : drop (i + 1) name ≡ shorter = ground (arith, n, e) in
      let (whole, len, without) = index_byte-split name b'.' i f in
      record {
        label = take i name;
        labelled = whole ∙ ap (λ s. take i name ++ (b'.' ∷ s)) same;
        one_label = without;
        some_label = ground (arith, n, len);
        some_rest =
            ground (arith, n, ap length same, length-drop (i + 1) name, index_byte-lt name b'.' f);
      }
]

parent-IsParent : (name shorter : Bytes) → parent name ≡ some shorter → IsParent name shorter
unfolding parent
parent-IsParent name shorter e = behind-IsParent name shorter (index_byte name b'.') refl e

drop-behind : (u : Bytes) (b : ℕ) (s : Bytes) → drop (length u + 1) (u ++ (b ∷ s)) ≡ s
drop-behind u b s =
    let next : length u + 1 ≡ suc (length u) = omega arith in
    ap (λ n. drop n (u ++ (b ∷ s))) next ∙ drop-suc-length u b s

IsParent-parent : (name shorter : Bytes) → IsParent name shorter → parent name ≡ some shorter
unfolding parent
IsParent-parent name shorter p =
    let whole = p.label ++ (b'.' ∷ shorter) in
    let inside : (ltb (length p.label) 1 || length p.label == length whole - 1) ≡ false =
      ground (arith, p.some_label, p.some_rest, length-append p.label (b'.' ∷ shorter)) in
    ap parent p.labelled
    ∙ ap (behind whole) (index_byte-lacks p.label b'.' shorter p.one_label)
    ∙ rw inside (ap some (drop-behind p.label b'.' shorter))

behind-shorter :
    (name shorter : Bytes) (o : Option ℕ)
    → ((i : ℕ) → o ≡ some i → i < length name)
    → behind name o ≡ some shorter
    → length shorter < length name
behind-shorter name shorter none h e = absurd (cc)
behind-shorter name shorter (some i) h e = elim (Bool-cases (ltb i 1 || i == length name - 1)) [
  | inl y ↦ absurd (ground (arith, y, e))
  | inr n ↦
      let same : drop (i + 1) name ≡ shorter = ground (arith, n, e) in
      omega (arith, ap length same, length-drop (i + 1) name, h i refl)
]

-- A parent is shorter.
length-parent : (name shorter : Bytes) → parent name ≡ some shorter → length shorter < length name
unfolding parent
length-parent name shorter e =
    behind-shorter name shorter (index_byte name b'.') (λ i f. index_byte-lt name b'.' f) e

-- Candidates of the parent, or none, as a listed ancestor.
with_parent-ancestor :
    (name : Bytes) (o : Option Bytes) (loop : Bytes → List Bytes) (names : List Bytes)
    → parent name ≡ o
    → ((shorter : Bytes) → any_in_set (loop shorter) names ≡ true → HasListedAncestor shorter names)
    → any_in_set (with_parent o loop) names ≡ true
    → HasListedAncestor name names
with_parent-ancestor name none loop names e h a = absurd (cc)
with_parent-ancestor name (some shorter) loop names e h a =
    let above : any_in_set (loop shorter) names ≡ true → HasListedAncestor name names = λ b.
      let (ancestor, under, size, listed) = h shorter b in
      (
        ancestor,
        further name shorter ancestor (parent-IsParent name shorter e) under,
        size,
        listed,
      ) in
    elim (Bool-cases (ltb (length shorter) 4)) [
      | inl y ↦ above (rw y at a)
      | inr n ↦
          let either =
            or-cases (in_set shorter names) (any_in_set (loop shorter) names) (rw n at a) in
          elim either [
            | inl listed ↦ (
              shorter,
              parent_is name shorter (parent-IsParent name shorter e),
              ground (arith, n),
              listed,
            )
            | inr b ↦ above b
          ]
    ]

-- Each candidate is an ancestor.
candidates-ancestor :
    (rounds : ℕ) (name : Bytes) (names : List Bytes)
    → any_in_set (parent_candidates rounds name) names ≡ true
    → HasListedAncestor name names
unfolding parent_candidates
candidates-ancestor zero name names h = absurd (cc)
candidates-ancestor (suc rounds) name names h =
    with_parent-ancestor name (parent name) (λ shorter. parent_candidates rounds shorter) names refl
      (λ shorter b. candidates-ancestor rounds shorter names b) h

-- The candidates have the parent and its candidates.
with_parent-listed :
    (shorter : Bytes) (loop : Bytes → List Bytes) (names : List Bytes)
    → ((4 ≤ length shorter) × (in_set shorter names ≡ true))
      ⊎ (any_in_set (loop shorter) names ≡ true)
    → any_in_set (with_parent (some shorter) loop) names ≡ true
with_parent-listed shorter loop names h = elim (Bool-cases (ltb (length shorter) 4)) [
  | inl y ↦ rw y (elim h [ inl (size, _) ↦ absurd (ground (arith, y, size)) | inr b ↦ b ])
  | inr n ↦ rw n (elim h [
    | inl (_, listed) ↦ rw listed refl
    | inr b ↦ or-right (in_set shorter names) (any_in_set (loop shorter) names) b
  ])
]

-- Each ancestor of four bytes or more is a candidate, where the rounds suffice.
ancestor-candidates :
    (rounds : ℕ) (name ancestor : Bytes) (names : List Bytes)
    → length name ≤ rounds
    → Ancestor name ancestor
    → 4 ≤ length ancestor
    → in_set ancestor names ≡ true
    → any_in_set (parent_candidates rounds name) names ≡ true
unfolding parent_candidates
ancestor-candidates zero name ancestor names r (parent_is _ _ p) size listed =
    absurd (omega (arith, length-parent name ancestor (IsParent-parent name ancestor p)))
ancestor-candidates zero name ancestor names r (further _ shorter _ p u) size listed =
    absurd (omega (arith, length-parent name shorter (IsParent-parent name shorter p)))
ancestor-candidates (suc rounds) name ancestor names r (parent_is _ _ p) size listed =
    ap (λ o. any_in_set (with_parent o (λ s. parent_candidates rounds s)) names)
      (IsParent-parent name ancestor p)
    ∙ with_parent-listed ancestor (λ s. parent_candidates rounds s) names (inl (size, listed))
ancestor-candidates (suc rounds) name ancestor names r (further _ shorter _ p u) size listed =
    let e = IsParent-parent name shorter p in
    let rest =
      ancestor-candidates rounds shorter ancestor names
        (omega (arith, length-parent name shorter e)) u size listed in
    ap (λ o. any_in_set (with_parent o (λ s. parent_candidates rounds s)) names) e
    ∙ with_parent-listed shorter (λ s. parent_candidates rounds s) names (inr rest)

-- A name of at most 255 bytes is blocked exactly where its trimmed form in lower case is in the
-- list, or where what is left of that form behind one or more of its labels is in the list and has
-- four bytes or more; the labels that are left out are not empty.
pub is_in_blacklist_iff :
    (to_lower : Bytes → Bytes) (names : List Bytes) (name : Bytes)
    → length name ≤ 255
    → (is_in_blacklist to_lower names name ≡ true) ↔ (
        (in_set (to_lower (trim_space name)) names ≡ true)
        ⊎ HasListedAncestor (to_lower (trim_space name)) names)
unfolding is_in_blacklist
is_in_blacklist_iff to_lower names name b =
    let normal = to_lower (trim_space name) in
    let candidates = parent_candidates (length normal) normal in
    let short : ltb 255 (length name) ≡ false = ground (arith, b) in
    (
      λ h.
          let either =
            or-cases (in_set normal names) (any_in_set candidates names) (rw short at h) in
          elim either [
            | inl listed ↦ inl listed
            | inr c ↦ inr (candidates-ancestor (length normal) normal names c)
          ],
      λ h. rw short (elim h [
        | inl listed ↦ rw listed refl
        | inr (ancestor, under, size, listed) ↦
            or-right (in_set normal names) (any_in_set candidates names) (
              ancestor-candidates (length normal) normal ancestor names (omega arith) under size
                listed)
      ]),
    )
