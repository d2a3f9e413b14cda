-- ===== src/RateLimit.antt =====
-- misc/ratelimit.go: the counter of hits by each actor over fixed windows of time.
--
-- The clock is an argument: each `add` is given the time, in seconds. `int` and `int64` values are
-- natural numbers, which the code's own check (both limits at least 1) ensures; counters stay at
-- or below `max_count` (RateLimit.Window), so that they do not overflow where it does not. The
-- mutex makes each call atomic. `warned` stands for the log message.
pub mod Window
mod Tests
use laitos.Base.{
  ℕ, ◌+◌, ◌-◌, ◌*◌, ◌%◌, Bool, true, false, not, ◌&&◌, ◌||◌, List, [], ◌∷◌, Option, none, some,
  Bytes, ltb, leb, ◌==◌, if◌then◌else◌,
}
use laitos.Base.Dict.{lookup, insert}

pub record RateLimit : Type 0 where
  pub unit_secs : ℕ
  pub max_count : ℕ
  pub last_timestamp : ℕ
  pub counter : List (Bytes × ℕ)
  pub logged : List (Bytes × Unit {0})

-- The loop over the factors: the first that divides the limit widens the unit.
widen : List ℕ → RateLimit → RateLimit
widen [] l = l
widen (factor ∷ factors) l =
    if l.max_count % factor == 0
    then record l { unit_secs = factor; max_count = l.max_count * factor }
    else widen factors l

-- `Initialise`; `none` is its panic.
unfoldable pub initialise : RateLimit → Option RateLimit
unfolding widen
initialise l =
    let l' = record l { counter = [] } in
    if ltb l.unit_secs 1 || ltb l.max_count 1
    then none
    else if l.unit_secs == 1
    then some (widen (11 ∷ 7 ∷ 5 ∷ 3 ∷ 2 ∷ []) l')
    else some l'

-- A new window begins once the unit of time has passed.
unfoldable pub roll : ℕ → RateLimit → RateLimit
roll now l =
    if leb l.unit_secs (now - l.last_timestamp)
    then record l { counter = []; logged = []; last_timestamp = now }
    else l

-- The branch of `Add` on the actor's count, in the current window.
unfoldable pub count_hit : Bytes → Bool → Option ℕ → RateLimit → RateLimit × Bool
count_hit actor log none l = (record l { counter = insert actor 1 l.counter }, true)
count_hit actor log (some count) l =
    if leb l.max_count count
    then (
      elim (lookup actor l.logged) [
        | none ↦ if log then record l { logged = insert actor tt l.logged } else l
        | some _ ↦ l
      ],
      false,
    )
    else (record l { counter = insert actor (count + 1) l.counter }, true)

-- `Add`
unfoldable pub add : Bytes → Bool → ℕ → RateLimit → RateLimit × Bool
unfolding roll count_hit
add actor log now l = count_hit actor log (lookup actor (roll now l).counter) (roll now l)
