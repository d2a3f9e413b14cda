-- ===== src/Base/Fallible.antt =====
-- Code that may panic, or fail, as `Option`: `none` stands for the panic.
use mathlib.Core.Path.{◌≡◌}
use mathlib.Core.Bool.{◌&&◌}
use mathlib.Core.Option.{Option, none, some}
use Prim.Native.Nat.{ℕ, ◌-◌, ◌≤◌}
use native.Mathlib.Omega.{arith}
use laitos.Base.Tests.{leb, if◌then◌else◌}
use laitos.Base.Lists.{length, get_elem?, take, drop}
use laitos.Base.Ascii.{Bytes}

infixl 5 ◌>>=◌
abbrev pub ◌>>=◌ {ℓ κ} : {A : Type ℓ} {B : Type κ} → Option A → (A → Option B) → Option B
none >>= f = none
some a >>= f = f a

-- `s[i]`, which panics out of range.
abbrev pub byte_at : Bytes → ℕ → Option ℕ
byte_at = get_elem?

-- `s[from:to]`, which panics unless `from <= to <= len(s)`.
unfoldable pub slice : Bytes → ℕ → ℕ → Option Bytes
slice s from to =
    if leb from to && leb to (length s) then some (take (to - from) (drop from s)) else none

pub slice-in_range :
    (s : Bytes) (from to : ℕ)
    → from ≤ to
    → to ≤ length s
    → slice s from to ≡ some (take (to - from) (drop from s))
unfolding slice
slice-in_range s from to h k = ground arith

-- The first result that there is.
abbrev pub or_else {ℓ} : {A : Type ℓ} → Option A → Option A → Option A
or_else (some a) o = some a
or_else none o = o
