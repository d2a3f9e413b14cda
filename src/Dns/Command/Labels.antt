-- ===== src/Dns/Command/Labels.antt =====
-- The labels that a command is cut into: of which size they are, and that they hold the command.
use laitos.Base.{
  ℕ, zero, suc, ◌+◌, ◌-◌, ◌/◌, ◌≤◌, ◌<◌, ◌≡◌, refl, ap, ◌∙◌, Bool, true, false, ◌&&◌, ◌||◌, List,
  [], ◌∷◌, ◌++◌, Bytes, arith, ltb, leb, ◌==◌, All, Bool-cases, inl, inr, length, take, drop, min,
  length-append, length-take, length-drop, take-append-drop,
}
use laitos.Dns.Command.{
  is_letter, encode_to_dtmf, encode_byte, sequence_of, dtmf_encode_table, command_labels, dotted,
  joined,
}

-- A label of letters and digits, which is not empty, and of at most 60 bytes.
abbrev pub is_plain_byte : ℕ → Bool
is_plain_byte c = is_letter c || (leb b'0' c && leb c b'9')

abbrev pub all_plain : Bytes → Bool
all_plain [] = true
all_plain (c ∷ s) = is_plain_byte c && all_plain s

abbrev pub IsCommandLabel : Bytes → Type 0
IsCommandLabel label = (0 < length label) × (length label ≤ 60) × (all_plain label ≡ true)

both : (a b : Bool) → (a && b) ≡ true → (a ≡ true) × (b ≡ true)
both true b h = (refl, h)
both false b h = absurd (cc)

all_plain-append :
    (s t : Bytes) → all_plain s ≡ true → all_plain t ≡ true → all_plain (s ++ t) ≡ true
all_plain-append [] t h e = e
all_plain-append (c ∷ s) t h e = ground (arith, all_plain-append s t (ground arith) e)

all_plain-take : (n : ℕ) (s : Bytes) → all_plain s ≡ true → all_plain (take n s) ≡ true
all_plain-take zero s h = refl
all_plain-take (suc n) [] h = refl
all_plain-take (suc n) (c ∷ s) h = ground (arith, all_plain-take n s (ground arith))

all_plain-drop : (n : ℕ) (s : Bytes) → all_plain s ≡ true → all_plain (drop n s) ≡ true
all_plain-drop zero s h = h
all_plain-drop (suc n) [] h = refl
all_plain-drop (suc n) (c ∷ s) h = all_plain-drop n s (ground arith)

rows_plain : List (ℕ × Bytes) → Bool
rows_plain [] = true
rows_plain ((_, digits) ∷ rows) = all_plain digits && rows_plain rows

sequence_of-plain :
    (c : ℕ) (rows : List (ℕ × Bytes))
    → rows_plain rows ≡ true
    → all_plain (sequence_of c rows) ≡ true
unfolding sequence_of rows_plain
sequence_of-plain c [] h = refl
sequence_of-plain c ((symbol, digits) ∷ rows) h =
    let (digital, later) = both (all_plain digits) _ h in
    elim (Bool-cases (symbol == c)) [
      | inl y ↦ rw y digital
      | inr m ↦ rw m (sequence_of-plain c rows later)
    ]

encode_byte-plain : (c : ℕ) → all_plain (encode_byte c) ≡ true
unfolding encode_byte rows_plain
encode_byte-plain c = elim (Bool-cases (is_letter c)) [
  | inl y ↦ rw y (ground arith)
  | inr n ↦ rw n (sequence_of-plain c dtmf_encode_table refl)
]

-- The encoder only writes letters and digits.
pub encode_to_dtmf-plain : (s : Bytes) → all_plain (encode_to_dtmf s) ≡ true
unfolding encode_to_dtmf
encode_to_dtmf-plain [] = refl
encode_to_dtmf-plain (c ∷ s) =
    all_plain-append (encode_byte c) (encode_to_dtmf s) (encode_byte-plain c)
      (encode_to_dtmf-plain s)

label-IsCommandLabel :
    (capacity : ℕ) (s : Bytes)
    → all_plain s ≡ true
    → ltb (min (min 60 (length s)) capacity) 1 ≡ false
    → IsCommandLabel (take (min (min 60 (length s)) capacity) s)
label-IsCommandLabel capacity s h n =
    let l = length-take (min (min 60 (length s)) capacity) s in
    (ground (arith, l, n), omega (arith, l), all_plain-take _ s h)

pub command_labels-IsCommandLabel :
    (rounds capacity : ℕ) (s : Bytes)
    → all_plain s ≡ true
    → All IsCommandLabel (command_labels rounds capacity s)
unfolding command_labels
command_labels-IsCommandLabel zero capacity s h = tt
command_labels-IsCommandLabel (suc rounds) capacity s h =
    let n = min (min 60 (length s)) capacity in
    let rest : All IsCommandLabel (command_labels rounds (capacity - n - 1) (drop n s)) =
      command_labels-IsCommandLabel rounds (capacity - n - 1) (drop n s) (all_plain-drop n s h) in
    elim (Bool-cases (ltb n 1)) [
      | inl y ↦ rw y tt
      | inr m ↦ rw m (label-IsCommandLabel capacity s h m, rest)
    ]

-- What a round leaves fits as well.
rest-fits :
    (rounds capacity : ℕ) (s : Bytes)
    → length s ≤ suc rounds
    → length s + length s / 60 ≤ capacity
    → 0 < length s
    → (length (drop (min (min 60 (length s)) capacity) s) ≤ rounds)
      × (length (drop (min (min 60 (length s)) capacity) s)
            + length (drop (min (min 60 (length s)) capacity) s) / 60
          ≤ capacity - min (min 60 (length s)) capacity - 1)
rest-fits rounds capacity s r f p =
    let l = length-drop (min (min 60 (length s)) capacity) s in (omega (arith, l), omega (arith, l))

-- A command that fits in the capacity is in the labels, whole.
pub command_labels-joined :
    (rounds capacity : ℕ) (s : Bytes)
    → length s ≤ rounds
    → length s + length s / 60 ≤ capacity
    → joined (command_labels rounds capacity s) ≡ s
unfolding command_labels
command_labels-joined zero capacity [] r f = refl
command_labels-joined zero capacity (c ∷ s) r f = absurd (omega arith)
command_labels-joined (suc rounds) capacity [] r f =
    elim (Bool-cases (ltb (min (min 60 0) capacity) 1)) [
      | inl y ↦ rw y refl
      | inr m ↦ absurd (ground arith)
    ]
command_labels-joined (suc rounds) capacity (c ∷ s) r f =
    let n = min (min 60 (length (c ∷ s))) capacity in
    let (shorter, fits) = rest-fits rounds capacity (c ∷ s) r f (omega arith) in
    let rest = command_labels-joined rounds (capacity - n - 1) (drop n (c ∷ s)) shorter fits in
    let some_label : ltb n 1 ≡ false = ground arith in
    rw some_label (ap (λ t. take n (c ∷ s) ++ t) rest ∙ take-append-drop n (c ∷ s))

command_labels-full : (rounds : ℕ) (s : Bytes) → command_labels rounds 0 s ≡ []
unfolding command_labels
command_labels-full zero s = refl
command_labels-full (suc rounds) s =
    let n : ltb (min (min 60 (length s)) 0) 1 ≡ true = ground arith in rw n refl

-- The labels and their full stops are no longer than the capacity and one byte more.
pub length-command_labels :
    (rounds capacity : ℕ) (s : Bytes)
    → length (dotted (command_labels rounds capacity s)) ≤ capacity + 1
unfolding command_labels
length-command_labels zero capacity s = omega arith
length-command_labels (suc rounds) capacity s =
    let n = min (min 60 (length s)) capacity in
    let rest = length-command_labels rounds (capacity - n - 1) (drop n s) in
    let whole =
      length-append (take n s)
        (b'.' ∷ dotted (command_labels rounds (capacity - n - 1) (drop n s))) in
    elim (Bool-cases (ltb n 1)) [
      | inl y ↦ rw y (omega arith)
      | inr m ↦ elim (Bool-cases (leb capacity n)) [
        | inl full ↦
            let none_left : capacity - n - 1 ≡ 0 = ground arith in
            let over : length (dotted (command_labels rounds (capacity - n - 1) (drop n s))) ≡ 0 =
              ap (λ k. length (dotted (command_labels rounds k (drop n s)))) none_left
              ∙ ap (λ ls. length (dotted ls)) (command_labels-full rounds (drop n s)) in
            rw m (ground (arith, whole, over, length-take n s))
        | inr room ↦ rw m (ground (arith, whole, rest, room, length-take n s))
      ]
    ]
