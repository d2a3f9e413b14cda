-- ===== src/Toolbox/InputFilter/Access.antt =====
-- What lets a command pass the filter for PIN, shortcuts and two-factor codes.
use mathlib.Core.List.{Memᴰ}
use laitos.Base.{
  ℕ, ◌<◌, ◌≡◌, ◌≢◌, refl, sym, ap, ◌∙◌, Bool, true, false, not, ◌&&◌, List, [], ◌∷◌, ◌++◌, Option,
  none, some, Bytes, arith, ltb, if◌then◌else◌, take, drop, length, equal, equal_iff,
  take-append-drop, length-take, length-drop,
}
use laitos.Base.Dict.{lookup}
use laitos.Text.Trim.{trim_space}
use laitos.Toolbox.Command.{Command, lines}
use laitos.Toolbox.InputFilter.{
  PinAndShortcuts, TotpMemory, Codes, get_totp, contains, Match, no_match, expanded, reused,
  by_totp, match_line, match_lines, match_secret, or_secret, after_match, pin_or_shortcuts,
  Filtered, transform_pin,
}

module _ (p : PinAndShortcuts) (codes : List Bytes) (mem : TotpMemory) (content : Bytes) where
  -- Why the filter lets a line, trimmed, through, and the command that it makes of it. A code
  -- must be valid, and the latest code only goes with the command that it came with.
  pub data Grant (line : Bytes) : Bytes → Type 0 where
    by_shortcut : {c : Bytes} → lookup line p.shortcuts ≡ some c → Grant line c
    by_pin : {c : Bytes} → p.pin ≢ [] → c ≢ [] → line ≡ p.pin ++ c → Grant line c
    by_code :
        {c : Bytes} (code : Bytes)
        → p.pin ≢ []
        → length code ≡ 12
        → contains code codes ≡ true
        → c ≢ []
        → line ≡ code ++ c
        → (code ≡ mem.last_totp → content ≡ mem.last_content)
        → Grant line c

  -- The memory behind a match.
  abbrev remembers : Match → TotpMemory
  remembers (by_totp code c) = record { last_totp = code; last_content = content }
  remembers _ = mem

  abbrev MatchGrants : Bytes → Match → Type 0
  MatchGrants line (expanded c) = Grant line c
  MatchGrants line (by_totp code c) = Grant line c × (contains code codes ≡ true)
  MatchGrants line _ = Unit

drop-ne-nil : (n : ℕ) (s : Bytes) → n < length s → drop n s ≢ []
drop-ne-nil n s h e = absurd (omega (arith, length-drop n s, ap length e))

prefix_split :
    (q line : Bytes) → equal (take (length q) line) q ≡ true → line ≡ q ++ drop (length q) line
prefix_split q line e =
    sym (take-append-drop (length q) line)
    ∙ ap (λ t. t ++ drop (length q) line) ((equal_iff (take (length q) line) q).0 e)

module _ (p : PinAndShortcuts) (codes : List Bytes) (mem : TotpMemory) (content line : Bytes) where
  if-MatchGrants :
      (b : Bool) (m n : Match)
      → (b ≡ true → MatchGrants p codes mem content line m)
      → (b ≡ false → MatchGrants p codes mem content line n)
      → MatchGrants p codes mem content line (if b then m else n)
  if-MatchGrants true m n f g = f refl
  if-MatchGrants false m n f g = g refl

  code-Grant :
      p.pin ≢ []
      → 12 < length line
      → contains (take 12 line) codes ≡ true
      → (equal (take 12 line) mem.last_totp && not (equal content mem.last_content)) ≡ false
      → Grant p codes mem content line (drop 12 line)
  code-Grant n l k fresh =
      by_code (take 12 line) n (omega (arith, length-take 12 line)) k (drop-ne-nil 12 line l)
        (sym (take-append-drop 12 line))
        (λ e.
          ground
            (arith, equal_iff (take 12 line) mem.last_totp, equal_iff content mem.last_content))

  match_secret-Grants : MatchGrants p codes mem content line (match_secret p codes mem content line)
  unfolding match_secret
  match_secret-Grants =
      if-MatchGrants (equal p.pin []) _ _ (λ _. tt)
        (λ n.
          let has_pin : p.pin ≢ [] = λ e. ground (arith, equal_iff p.pin []) in
          if-MatchGrants
            (ltb (length p.pin) (length line) && equal (take (length p.pin) line) p.pin) _ _
            (λ y.
              by_pin has_pin (drop-ne-nil (length p.pin) line (ground arith))
                (prefix_split p.pin line (ground arith)))
            (λ _.
              if-MatchGrants (not (ltb 12 (length line) && contains (take 12 line) codes)) _ _
                (λ _. tt)
                (λ k.
                  if-MatchGrants
                    (equal (take 12 line) mem.last_totp && not (equal content mem.last_content)) _ _
                    (λ _. tt)
                    (λ fresh.
                      (code-Grant has_pin (ground arith) (ground arith) fresh, ground arith)))))

  or_secret-Grants :
      (o : Option Bytes) (m : Match)
      → lookup line p.shortcuts ≡ o
      → MatchGrants p codes mem content line m
      → MatchGrants p codes mem content line (or_secret o m)
  unfolding or_secret
  or_secret-Grants (some c) m e g = by_shortcut e
  or_secret-Grants none m e g = g

  match_line-Grants : MatchGrants p codes mem content line (match_line p codes mem content line)
  unfolding match_line
  match_line-Grants = or_secret-Grants (lookup line p.shortcuts) _ refl match_secret-Grants

-- A command passed: some line of it, trimmed, has a grant, and only its content has changed.
pub record Granted (p : PinAndShortcuts) (codes : List Bytes) (mem : TotpMemory) (cmd out : Command)
    : Type 0 where
  pub line : Bytes
  pub is_line : Memᴰ line (lines cmd)
  pub grant : Grant p codes mem cmd.content (trim_space line) out.content
  pub same : out ≡ record cmd { content = out.content }

abbrev FilteredGrants :
    PinAndShortcuts → List Bytes → TotpMemory → Command → List Bytes → Filtered → Type 0
FilteredGrants p codes mem cmd ls r =
    r.error ≡ none
    → (line : Bytes) × Memᴰ line ls
      × Grant p codes mem cmd.content (trim_space line) r.command.content
      × (r.command ≡ record cmd { content = r.command.content })

match_lines-Grants :
    (p : PinAndShortcuts) (codes : List Bytes) (mem : TotpMemory) (cmd : Command) (ls : List Bytes)
    → FilteredGrants p codes mem cmd ls (match_lines p codes mem cmd ls)
unfolding match_lines
match_lines-Grants p codes mem cmd [] = λ e. absurd (cc)
match_lines-Grants p codes mem cmd (line ∷ rest) =
    found (match_line p codes mem cmd.content (trim_space line))
      (match_line-Grants p codes mem cmd.content (trim_space line))
      (match_lines-Grants p codes mem cmd rest)
  where
    found :
        (m : Match)
        → MatchGrants p codes mem cmd.content (trim_space line) m
        → FilteredGrants p codes mem cmd rest (match_lines p codes mem cmd rest)
        → FilteredGrants p codes mem cmd
            (line ∷ rest)
            (after_match m (match_lines p codes mem cmd rest) mem cmd)
    found no_match g later e = let (l, m, h, s) = later e in (l, Memᴰ.tail m, h, s)
    found (expanded c) g later e = (line, Memᴰ.head refl, g, refl)
    found reused g later e = absurd (cc)
    found (by_totp code c) g later e = (line, Memᴰ.head refl, g.0, refl)

FilteredGrants-Granted :
    (p : PinAndShortcuts) (codes : List Bytes) (mem : TotpMemory) (cmd : Command) (r : Filtered)
    → FilteredGrants p codes mem cmd (lines cmd) r
    → r.error ≡ none
    → Granted p codes mem cmd r.command
FilteredGrants-Granted p codes mem cmd r g e =
    let (line, m, grant, same) = g e in
    record { line = line; is_line = m; grant = grant; same = same }

pin_or_shortcuts-checked :
    (ss : List (Bytes × Bytes)) (b : Bool) (mem : TotpMemory) (checked : Filtered)
    → (pin_or_shortcuts ss b mem checked).error ≡ none
    → pin_or_shortcuts ss b mem checked ≡ checked
unfolding pin_or_shortcuts
pin_or_shortcuts-checked [] true mem checked e = absurd (cc)
pin_or_shortcuts-checked [] false mem checked e = refl
pin_or_shortcuts-checked (_ ∷ _) _ mem checked e = refl

-- A command that passes the filter for PIN and shortcuts has a line that, trimmed, is one of the
-- shortcuts, or begins with the PIN or with one of the two-factor codes that are valid, followed
-- by the command that is passed on; a code equal to the one used last must come with the command
-- that it was used with. Nothing but the content of the command has changed.
pub transform_pin-Granted :
    (two_fa_codes : Bytes → Option Codes) (p : PinAndShortcuts) (mem : TotpMemory) (cmd : Command)
    → (transform_pin two_fa_codes p mem cmd).error ≡ none
    → Granted p (get_totp two_fa_codes p) mem cmd (transform_pin two_fa_codes p mem cmd).command
unfolding transform_pin
transform_pin-Granted f p mem cmd e =
    let codes = get_totp f p in
    let checked = match_lines p codes mem cmd (lines cmd) in
    let same = pin_or_shortcuts-checked p.shortcuts (equal p.pin []) mem checked e in
    rw same (
      FilteredGrants-Granted p codes mem cmd checked
        (match_lines-Grants p codes mem cmd (lines cmd)) (rw same at e))
