-- ===== src/Snmp/Walk.antt =====
-- A walk over the objects comes to its end.
use laitos.Base.{
  ℕ, zero, suc, ◌+◌, ◌-◌, ◌≤◌, ◌<◌, ◌≡◌, refl, sym, ap, ◌∙◌, Bool, true, false, List, [], ◌∷◌, ◌++◌,
  Option, none, some, arith, ltb, ◌==◌, if◌then◌else◌, length, take, drop, get_or, equal, equal_iff,
  ==_iff, Bool-cases, Option-cases, inl, inr, take-append-drop, length-drop,
}
use laitos.Toolbox.Dtmf.RoundTrip.{holds_from, holds_from-at}
use laitos.Snmp.{
  parent_oid, oid_suffix_list, search_ints, is_foreign, next_at, get_next_node, get_node,
  get_next_request, GetResponse, answer, next_response,
}

-- What a walk does on an answer: it ends, or goes on from the object answered.
abbrev pub walk_on {ℓ} : {V : Type ℓ} → Option (GetResponse V) → (List ℕ → Bool) → Bool
walk_on none rest = false
walk_on (some r) rest =
    let later = rest r.requested_oid in if r.end_of_mib_view then true else later

abbrev is_some : Option ℕ → Bool
is_some none = false
is_some (some k) = true

-- A walk asks for the object behind the one answered, until the answer says that it is the last.
unfoldable pub walk_ends {ℓ} : {V : Type ℓ} → (ℕ → V) → ℕ → List ℕ → Bool
unfolding answer
walk_ends show zero oid = false
walk_ends show (suc n) oid =
    walk_on (answer show (get_next_request oid)) (λ next. walk_ends show n next)

search_ints-le : (xs : List ℕ) (x : ℕ) → search_ints xs x ≤ length xs
search_ints-le [] x = omega arith
search_ints-le (a ∷ xs) x = ground (arith, search_ints-le xs x)

search_ints-above :
    (xs : List ℕ) (x : ℕ) → search_ints xs x < length xs → x ≤ get_or xs (search_ints xs x) 0
search_ints-above [] x h = absurd (omega arith)
search_ints-above (a ∷ xs) x h = elim (Bool-cases (ltb a x)) [
  | inl y ↦
      let next : (if ltb a x then suc (search_ints xs x) else 0) ≡ suc (search_ints xs x) =
        rw y refl in
      let fewer : search_ints xs x < length xs = omega (arith, h, next) in
      rw y (search_ints-above xs x fewer)
  | inr n ↦ rw n (ground (arith, n))
]

search_ints-below : (xs : List ℕ) (x k : ℕ) → k < search_ints xs x → get_or xs k 0 < x
search_ints-below [] x k h = absurd (omega arith)
search_ints-below (a ∷ xs) x zero h = ground (arith, h)
search_ints-below (a ∷ xs) x (suc k) h = elim (Bool-cases (ltb a x)) [
  | inl y ↦
      let next : (if ltb a x then suc (search_ints xs x) else 0) ≡ suc (search_ints xs x) =
        rw y refl in
      search_ints-below xs x k (omega (arith, h, next))
  | inr n ↦
      let none_below : (if ltb a x then suc (search_ints xs x) else 0) ≡ 0 = rw n refl in
      absurd (omega (arith, h, none_below))
]

last-suffix : (x : ℕ) → search_ints oid_suffix_list x ≡ 10 → x ≡ 115
last-suffix x e =
    let within : search_ints oid_suffix_list x < 11 = omega (arith, e) in
    let above = search_ints-above oid_suffix_list x within in
    let top : get_or oid_suffix_list (search_ints oid_suffix_list x) 0 ≡ 115 =
      ap (λ k. get_or oid_suffix_list k 0) e in
    let below : 114 < x = search_ints-below oid_suffix_list x 9 (omega (arith, e)) in
    omega (arith, above, top, below)

one-left : (s : List ℕ) → length s ≡ 1 → (x : ℕ) × (s ≡ x ∷ [])
one-left [] e = absurd (omega arith)
one-left (x ∷ []) e = (x, refl)
one-left (x ∷ y ∷ s) e = absurd (omega arith)

-- An object of the parent is the parent and one number.
own-oid : (oid : List ℕ) → is_foreign oid ≡ false → (x : ℕ) × (oid ≡ parent_oid ++ (x ∷ []))
unfolding is_foreign
own-oid oid h =
    let front = take (length oid - 1) oid in
    let same : equal front parent_oid ≡ true = ground (arith, h) in
    let spelled : front ≡ parent_oid = (equal_iff front parent_oid).0 same in
    let long : 9 ≤ length oid = ground (arith, h) in
    let (x, last) =
      one-left (drop (length oid - 1) oid)
        (omega (arith, length-drop (length oid - 1) oid, long)) in
    (
      x,
      sym (take-append-drop (length oid - 1) oid)
          ∙ ap (λ s. s ++ drop (length oid - 1) oid) spelled
          ∙ ap (λ s. parent_oid ++ s) last,
    )

module _ {ℓ} {V : Type ℓ} (show : ℕ → V) where
  -- The object at a place of the list.
  abbrev pub listed : ℕ → List ℕ
  listed p = parent_oid ++ (get_or oid_suffix_list p 0 ∷ [])

  all-end : holds_from (λ p. walk_ends show 11 (listed p)) 11 0 ≡ true
  unfolding walk_ends equal
  all-end = refl

  -- A walk from each object of the server ends within eleven requests.
  listed-ends : (p : ℕ) → p < 11 → walk_ends show 11 (listed p) ≡ true
  listed-ends p h =
      holds_from-at (λ q. walk_ends show 11 (listed q)) 11 0 p all-end (omega arith)
        (omega (arith, h))

  walk-step :
      (n : ℕ) (oid next : List ℕ) (node : ℕ)
      → get_next_node oid ≡ (next, false)
      → get_node next ≡ some node
      → walk_ends show (suc n) oid ≡ walk_ends show n next
  unfolding walk_ends answer
  walk-step n oid next node e k =
      ap
        (λ (r : List ℕ × Bool).
          walk_on (next_response show r.0 r.1 (get_node r.0)) (λ o. walk_ends show n o))
        e
      ∙ ap (λ o. walk_on (next_response show next false o) (λ o. walk_ends show n o)) k

  walk-last :
      (n : ℕ) (oid next : List ℕ) (node : ℕ)
      → get_next_node oid ≡ (next, true)
      → get_node next ≡ some node
      → walk_ends show (suc n) oid ≡ true
  unfolding walk_ends answer
  walk-last n oid next node e k =
      ap
        (λ (r : List ℕ × Bool).
          walk_on (next_response show r.0 r.1 (get_node r.0)) (λ o. walk_ends show n o))
        e
      ∙ ap (λ o. walk_on (next_response show next true o) (λ o. walk_ends show n o)) k

  all-nodes : holds_from (λ p. is_some (get_node (listed p))) 11 0 ≡ true
  unfolding get_node equal
  all-nodes = refl

  -- The object is one of the server's.
  listed-node : (p : ℕ) → p < 11 → (k : ℕ) × (get_node (listed p) ≡ some k)
  listed-node p h =
      let found : is_some (get_node (listed p)) ≡ true =
        holds_from-at (λ q. is_some (get_node (listed q))) 11 0 p all-nodes (omega arith)
          (omega (arith, h)) in
      elim (Option-cases (get_node (listed p))) [
        | inl missing ↦ absurd (ground (arith, missing, found))
        | inr k ↦ k
      ]

  -- A walk whose next object is in the list ends.
  listed-next :
      (oid : List ℕ) (p : ℕ)
      → p < 11
      → get_next_node oid ≡ (listed p, false)
      → walk_ends show 12 oid ≡ true
  listed-next oid p h e =
      let (k, node) = listed-node p h in walk-step 11 oid (listed p) k e node ∙ listed-ends p h

  -- The next object, by where the suffix belongs in the list.
  next_at-place :
      (x p : ℕ)
      → search_ints oid_suffix_list x ≡ p
      → get_next_node (parent_oid ++ (x ∷ [])) ≡ next_at (parent_oid ++ (x ∷ [])) p
  unfolding get_next_node is_foreign equal
  next_at-place x p e = ap (next_at (parent_oid ++ (x ∷ []))) e

  own-ends : (x : ℕ) → walk_ends show 12 (parent_oid ++ (x ∷ [])) ≡ true
  unfolding next_at
  own-ends x =
      let oid = parent_oid ++ (x ∷ []) in
      let p = search_ints oid_suffix_list x in
      let place = next_at-place x p refl in
      let bound = search_ints-le oid_suffix_list x in
      elim (Bool-cases (p == 11)) [
        | inl y ↦ listed-next oid 0 (omega arith) (place ∙ rw y refl)
        | inr n ↦ elim (Bool-cases (p == 10)) [
          | inl y ↦
              let (k, node) = listed-node 10 (omega arith) in
              let last = last-suffix x ((==_iff p 10).0 y) in
              walk-last 11 oid oid k (place ∙ rw (n, y) refl)
                (ap (λ z. get_node (parent_oid ++ (z ∷ []))) last ∙ node)
          | inr m ↦ listed-next oid (p + 1) (ground (arith, bound, n, m)) (place ∙ rw (n, m) refl)
        ]
      ]

  foreign-ends : (oid : List ℕ) → is_foreign oid ≡ true → walk_ends show 12 oid ≡ true
  foreign-ends oid h = listed-next oid 0 (omega arith) (unfold get_next_node in rw h refl)

  -- A walk from any object, one that the server has or another, ends within twelve requests: each
  -- is answered, and one of the answers says that it is the last.
  pub walk_ends-within : (oid : List ℕ) → walk_ends show 12 oid ≡ true
  walk_ends-within oid = elim (Bool-cases (is_foreign oid)) [
    | inl y ↦ foreign-ends oid y
    | inr n ↦ let (x, e) = own-oid oid n in ap (walk_ends show 12) e ∙ own-ends x
  ]
