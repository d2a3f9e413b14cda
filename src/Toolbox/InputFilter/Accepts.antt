-- ===== src/Toolbox/InputFilter/Accepts.antt =====
-- What the filter for PIN and shortcuts lets through.
use laitos.Base.{
  ◌<◌, ◌≡◌, ◌≢◌, refl, Bool, true, false, ◌&&◌, List, [], ◌∷◌, ◌++◌, none, Bytes, arith, ltb, take,
  drop, length, equal, equal_iff, equal_self, take-append, drop-append, length-append,
}
use laitos.Base.Dict.{lookup}
use laitos.Toolbox.InputFilter.{
  PinAndShortcuts, TotpMemory, contains, expanded, by_totp, match_line, match_secret, or_secret,
}

length-pos : (c : Bytes) → c ≢ [] → 0 < length c
length-pos [] h = absurd (h refl)
length-pos (x ∷ c) h = omega arith

-- The filter's test for the PIN at the head of a line.
abbrev pub starts_with_pin : PinAndShortcuts → Bytes → Bool
starts_with_pin p line = ltb (length p.pin) (length line) && equal (take (length p.pin) line) p.pin

module _ (p : PinAndShortcuts) (codes : List Bytes) (mem : TotpMemory) (content c : Bytes) where
  -- A line that is no shortcut and consists of the PIN and a command lets that command through,
  -- exactly as it stands behind the PIN, even where the line begins with a code as well.
  pub match_line-pin :
      p.pin ≢ []
      → c ≢ []
      → lookup (p.pin ++ c) p.shortcuts ≡ none
      → match_line p codes mem content (p.pin ++ c) ≡ expanded c
  unfolding match_line match_secret or_secret
  match_line-pin n m e = ground (
    arith,
    e,
    equal_iff p.pin [],
    take-append p.pin c,
    drop-append p.pin c,
    equal_self p.pin,
    length-append p.pin c,
    length-pos c m,
  )

  -- A valid code other than the one used last lets any command through, also one that the code was
  -- used with before: only the latest code is remembered.
  pub match_line-other_code :
      (code : Bytes)
      → p.pin ≢ []
      → c ≢ []
      → length code ≡ 12
      → contains code codes ≡ true
      → code ≢ mem.last_totp
      → lookup (code ++ c) p.shortcuts ≡ none
      → starts_with_pin p (code ++ c) ≡ false
      → match_line p codes mem content (code ++ c) ≡ by_totp code c
  unfolding match_line match_secret or_secret
  match_line-other_code code n m twelve valid other e no_pin =
      let t : take 12 (code ++ c) ≡ code = rw (← twelve) (take-append code c) in
      let d : drop 12 (code ++ c) ≡ c = rw (← twelve) (drop-append code c) in
      ground (
        arith,
        e,
        equal_iff p.pin [],
        t,
        d,
        no_pin,
        equal_iff code mem.last_totp,
        length-append code c,
        length-pos c m,
      )
