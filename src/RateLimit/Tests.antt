-- ===== src/RateLimit/Tests.antt =====
-- The theorems about the rate limit at concrete inputs.
use Prim.Native.Nat.{min}
use laitos.Base.{ℕ, ◌-◌, ◌*◌, ◌≤◌, ◌≡◌, true, List, [], ◌∷◌, codes, arith}
use laitos.Base.Dict.{lookup}
use laitos.RateLimit.{RateLimit}
use laitos.RateLimit.Window.{Call, accepted, calls_by, hits, accepted-min, accepted-le_twice}

abbrev limit : RateLimit
limit = record { unit_secs = 3; max_count = 2; last_timestamp = 100; counter = []; logged = [] }

abbrev call : ℕ → Call
call t = record { actor = codes "a"; log = true; now = t }

abbrev calls : List Call
calls = call 101 ∷ call 101 ∷ call 102 ∷ []

accepted-min_example :
    accepted (codes "a") calls limit ≡ min (calls_by (codes "a") calls) (2 - hits (codes "a") limit)
unfolding lookup
accepted-min_example =
    accepted-min (codes "a") calls limit 103 (omega arith) (omega arith) (omega arith) (omega arith)

accepted-le_twice_example : accepted (codes "a") (call 102 ∷ call 102 ∷ call 103 ∷ []) limit ≤ 2 * 2
unfolding lookup
accepted-le_twice_example =
    accepted-le_twice (codes "a") (call 102 ∷ call 102 ∷ call 103 ∷ []) limit 101 (omega arith)
      (omega arith) (omega arith) (omega arith)

abbrev per_second : RateLimit
per_second = record { unit_secs = 1; max_count = 21; last_timestamp = 0; counter = []; logged = [] }

abbrev widened : RateLimit
widened = record { unit_secs = 7; max_count = 147; last_timestamp = 0; counter = []; logged = [] }
