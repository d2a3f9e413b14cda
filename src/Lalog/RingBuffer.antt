-- ===== src/Lalog/RingBuffer.antt =====
-- lalog/ring_buffer.go: a ring buffer of strings.
--
-- The counter is an `int64`, taken not to overflow. `IterateReverse` calls a function that the
-- caller gives it: a function from a state and an element to the next state and the answer whether
-- to go on.
pub mod Rotation
pub mod Latest
use laitos.Base.{
  ℕ, zero, suc, ◌+◌, ◌-◌, ◌%◌, Bool, true, false, List, [], ◌∷◌, ◌++◌, reverse, Option, none, some,
  Bytes, ltb, if◌then◌else◌, get_or, set, replicate,
}

pub record RingBuffer : Type 0 where
  pub size : ℕ
  pub counter : ℕ
  pub buf : List Bytes

-- `NewRingBuffer`; `none` is its panic.
unfoldable pub new_ring_buffer : ℕ → Option RingBuffer
new_ring_buffer size =
    if ltb size 1 then none else some (record { size = size; counter = 0; buf = replicate size [] })

unfoldable pub push : Bytes → RingBuffer → RingBuffer
push elem r = record r { counter = r.counter + 1; buf = set r.buf ((r.counter + 1) % r.size) elem }

unfoldable pub clear : RingBuffer → RingBuffer
clear r = record r { buf = replicate r.size [] }

-- The body of the loops: an empty element is passed over.
abbrev pub visit {ℓ} : {S : Type ℓ} → (S → Bytes → S × Bool) → S → Bytes → S × Bool
visit f s [] = (s, true)
visit f s (c ∷ elem) = f s (c ∷ elem)

-- The loop from the index `low + n - 1` down to `low`; the Boolean says that it was not stopped.
unfoldable pub walk {ℓ} : {S : Type ℓ} → (S → Bytes → S × Bool) → List Bytes → ℕ → ℕ → S → S × Bool
walk f buf low zero s = (s, true)
walk f buf low (suc n) s =
    let t = visit f s (get_or buf (low + n) []) in
    let rest = walk f buf low n t.0 in if t.1 then rest else t

unfoldable pub iterate_reverse {ℓ} : {S : Type ℓ} → (S → Bytes → S × Bool) → RingBuffer → S → S
unfolding walk
iterate_reverse f r s =
    let passed = suc (r.counter % r.size) in  -- the index of the latest, and one
    let latest = walk f r.buf 0 passed s in
    let earlier = walk f r.buf passed (r.size - passed) latest.0 in
    if latest.1 then earlier.0 else latest.0

abbrev pub collect : List Bytes → Bytes → List Bytes × Bool
collect elems elem = (elems ++ (elem ∷ []), true)

unfoldable pub get_all : RingBuffer → List Bytes
unfolding iterate_reverse
get_all r = reverse (iterate_reverse collect r [])
