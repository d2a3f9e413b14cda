-- ===== src/RateLimit/Window.antt =====
-- How many hits the limit lets through.
use Prim.Native.Nat.{min}
use laitos.Base.{
  ℕ, ◌+◌, ◌-◌, ◌*◌, ◌≤◌, ◌<◌, ◌≡◌, refl, inl, inr, Bool, List, [], ◌∷◌, none, some, Bytes, All,
  arith, ltb, ◌&&◌, Option-cases, dec_lt, if◌then◌else◌, equal, equal_iff,
}
use laitos.Base.Dict.{lookup, insert, lookup-insert}
use laitos.RateLimit.{RateLimit, initialise, widen, roll, count_hit, add}

-- Where `Initialise` does not panic it keeps the rate, which is the limit in proportion to the
-- unit, does not lower the limit, leaves both limits positive, and clears the counters.
pub initialise_keeps_rate :
    (l r : RateLimit)
    → initialise l ≡ some r
    → (r.max_count * l.unit_secs ≡ l.max_count * r.unit_secs)
      × (l.max_count ≤ r.max_count)
      × (0 < r.max_count)
      × (0 < r.unit_secs)
      × (r.counter ≡ [])
unfolding initialise widen
initialise_keeps_rate l r e = ground arith

-- A call of `Add`: the actor, whether to log, and the time.
pub record Call : Type 0 where
  pub actor : Bytes
  pub log : Bool
  pub now : ℕ

-- The calls in turn, with how many of those by `a` were let through.
unfoldable pub accepted : Bytes → List Call → RateLimit → ℕ
accepted a [] l = 0
accepted a (c ∷ cs) l =
    (if equal c.actor a && (add c.actor c.log c.now l).1 then 1 else 0)
    + accepted a cs (add c.actor c.log c.now l).0

abbrev pub calls_by : Bytes → List Call → ℕ
calls_by a [] = 0
calls_by a (c ∷ cs) = (if equal c.actor a then 1 else 0) + calls_by a cs

-- The hits of an actor in the current window.
abbrev pub hits : Bytes → RateLimit → ℕ
hits a l = elim (lookup a l.counter) [ none ↦ 0 | some n ↦ n ]

-- The time is in the current window.
abbrev pub InWindow : RateLimit → Call → Type 0
InWindow l c = c.now < l.last_timestamp + l.unit_secs

-- The state behind a call in the window, and the hits of every actor in it.
record Stays (c : Call) (a : Bytes) (l : RateLimit) (r : RateLimit × Bool) : Type 0 where
  same_max : r.0.max_count ≡ l.max_count
  same_unit : r.0.unit_secs ≡ l.unit_secs
  same_time : r.0.last_timestamp ≡ l.last_timestamp
  let_through : r.1 ≡ ltb (hits c.actor l) l.max_count
  counted : hits a r.0 ≡ hits a l + (if equal c.actor a && r.1 then 1 else 0)

roll-InWindow : (c : Call) (l : RateLimit) → InWindow l c → 0 < l.unit_secs → roll c.now l ≡ l
unfolding roll
roll-InWindow c l w u = ground arith

count_hit-Stays :
    (c : Call) (a : Bytes) (l : RateLimit)
    → 0 < l.max_count
    → Stays c a l (count_hit c.actor c.log (lookup c.actor l.counter) l)
unfolding count_hit
count_hit-Stays c a l p = elim (Option-cases (lookup c.actor l.counter)) [
  | inl e ↦ rw e (record {
    same_max = refl;
    same_unit = refl;
    same_time = refl;
    let_through = ground (arith, e);
    counted = ground (arith, e, equal_iff c.actor a, lookup-insert c.actor a 1 l.counter);
  })
  | inr (n, e) ↦
      rw e (ground (arith, equal_iff c.actor a, lookup-insert c.actor a (n + 1) l.counter))
]

add-Stays :
    (c : Call) (a : Bytes) (l : RateLimit)
    → 0 < l.max_count
    → 0 < l.unit_secs
    → InWindow l c
    → Stays c a l (add c.actor c.log c.now l)
unfolding add
add-Stays c a l p u w = rw (roll-InWindow c l w u) (count_hit-Stays c a l p)

-- Every call comes before a time.
abbrev pub Before : ℕ → List Call → Type 0
Before end = All (λ c. c.now < end)

abbrev pub After : ℕ → List Call → Type 0
After begin = All (λ c. begin ≤ c.now)

-- The limits are set, and the counts within them.
pub record IsSound (l : RateLimit) : Type 0 where
  pub max_pos : 0 < l.max_count
  pub unit_pos : 0 < l.unit_secs

-- A call that begins a window leaves a single hit.
record Restarts (c : Call) (a : Bytes) (l : RateLimit) (r : RateLimit × Bool) : Type 0 where
  same_max : r.0.max_count ≡ l.max_count
  same_unit : r.0.unit_secs ≡ l.unit_secs
  new_time : r.0.last_timestamp ≡ c.now
  hit : hits a r.0 ≡ (if equal c.actor a && r.1 then 1 else 0)

roll_restart :
    (c : Call) (l : RateLimit)
    → l.unit_secs ≤ c.now - l.last_timestamp
    → roll c.now l ≡ record l { counter = []; logged = []; last_timestamp = c.now }
unfolding roll
roll_restart c l w = ground arith

add-Restarts :
    (c : Call) (a : Bytes) (l : RateLimit)
    → l.unit_secs ≤ c.now - l.last_timestamp
    → Restarts c a l (add c.actor c.log c.now l)
unfolding add count_hit lookup insert
add-Restarts c a l w = rw (roll_restart c l w) (ground arith)

module _ (a : Bytes) where
  -- Within one window an actor is let through as often as it calls, up to what is left of the
  -- limit, whatever the calls of other actors in between.
  pub accepted-min :
      (cs : List Call) (l : RateLimit) (end : ℕ)
      → IsSound l
      → hits a l ≤ l.max_count
      → end ≤ l.last_timestamp + l.unit_secs
      → Before end cs
      → accepted a cs l ≡ min (calls_by a cs) (l.max_count - hits a l)
  unfolding accepted
  accepted-min [] l end v h w b = omega arith
  accepted-min (c ∷ cs) l end v h w (b, bs) =
      let s = add-Stays c a l v.max_pos v.unit_pos (omega arith) in
      let l' = (add c.actor c.log c.now l).0 in
      let kept : hits a l' ≤ l'.max_count = ground (arith, s, equal_iff c.actor a) in
      let sound : IsSound l' = omega (arith, s, v) in
      let later = accepted-min cs l' end sound kept (omega (arith, s)) bs in
      ground (arith, s, later, equal_iff c.actor a)

  -- The same with what is left of the limit in the window at hand.
  accepted-le :
      (cs : List Call) (l : RateLimit) (begin : ℕ)
      → IsSound l
      → hits a l ≤ l.max_count
      → After begin cs
      → Before (begin + l.unit_secs) cs
      → accepted a cs l ≤ (l.max_count - hits a l) + l.max_count
  unfolding accepted
  accepted-le [] l begin v h f b = omega arith
  accepted-le (c ∷ cs) l begin v h (f, fs) (b, bs) =
      let l' = (add c.actor c.log c.now l).0 in
      elim (dec_lt c.now (l.last_timestamp + l.unit_secs)) [
        | yes inside ↦
            let s = add-Stays c a l v.max_pos v.unit_pos inside in
            let kept : hits a l' ≤ l'.max_count = ground (arith, s, equal_iff c.actor a) in
            let sound : IsSound l' = omega (arith, s, v) in
            let ends : Before (begin + l'.unit_secs) cs = rw s.same_unit bs in
            let later = accepted-le cs l' begin sound kept fs ends in
            ground (arith, s, later, equal_iff c.actor a)
        | no outside ↦
            let s = add-Restarts c a l (omega arith) in
            let kept : hits a l' ≤ l'.max_count = ground (arith, s, v) in
            let sound : IsSound l' = omega (arith, s, v) in
            let later = accepted-min cs l' (begin + l.unit_secs) sound kept (omega (arith, s)) bs in
            ground (arith, s, later)
      ]

  -- Over any stretch of time that is no longer than the unit, an actor is let through at most
  -- twice the limit: the counter starts again at most once in it, whatever it stood at before.
  pub accepted-le_twice :
      (cs : List Call) (l : RateLimit) (begin : ℕ)
      → IsSound l
      → hits a l ≤ l.max_count
      → After begin cs
      → Before (begin + l.unit_secs) cs
      → accepted a cs l ≤ 2 * l.max_count
  accepted-le_twice cs l begin v h f b = omega (arith, accepted-le cs l begin v h f b)
